-- ===== src/Receiver/ClusterIds/Race.antt =====
-- Workers that run at the same time.
use cluster_size_operator_fo.Prelude.{
  ℕ, zero, suc, ◌≡◌, refl, ◌∙◌, ap, Bool, false, ◌||◌, List, [], ◌∷◌, contains, nat_eq, list_eq,
  arith, All, get_or,
}
use cluster_size_operator_fo.Text.{Text}
use cluster_size_operator_fo.Receiver.ClusterIds.{
  discovered_ids, existing_ids, Pool, Event, reads, writes, remove_at, pool_step, pool_steps,
}
use cluster_size_operator_fo.Receiver.ClusterIds.Found.{IsId}
use cluster_size_operator_fo.Receiver.ClusterIds.Union.{
  IsArrangement, IsEnded, append_ids-IsEnded, contains-append_ids, contains-start, start-IsId,
}

-- An id is about to be written by a worker.
abbrev pub is_running : List (List Text) → Text → Bool
is_running [] x = false
is_running (ids ∷ running) x = contains ids x || is_running running x

-- An id is in the file or about to be written.
abbrev pub is_known : Pool → Text → Bool
is_known p x = contains (existing_ids p.cid_file) x || is_running p.running x

-- One of the messages that are read names an id.
abbrev pub is_read : (ℕ → Bool) → List Event → Text → Bool
is_read wide_word [] x = false
is_read wide_word (reads raw_text ∷ events) x =
    contains (discovered_ids wide_word raw_text) x || is_read wide_word events x
is_read wide_word (writes i ∷ events) x = is_read wide_word events x

nth-IsId :
    (running : List (List Text)) (i : ℕ) → All (All IsId) running → All IsId (get_or running i [])
nth-IsId [] i h = tt
nth-IsId (ids ∷ running) zero (h, hs) = h
nth-IsId (ids ∷ running) (suc i) (h, hs) = nth-IsId running i hs

remove_at-IsId :
    (running : List (List Text)) (i : ℕ)
    → All (All IsId) running
    → All (All IsId) (remove_at i running)
remove_at-IsId [] i h = tt
remove_at-IsId (ids ∷ running) zero (h, hs) = hs
remove_at-IsId (ids ∷ running) (suc i) (h, hs) = (h, remove_at-IsId running i hs)

is_running-remove_at :
    (running : List (List Text)) (i : ℕ) (x : Text)
    → is_running running x
      ≡ (contains (get_or running i []) x || is_running (remove_at i running) x)
is_running-remove_at [] i x = refl
is_running-remove_at (ids ∷ running) zero x = refl
is_running-remove_at (ids ∷ running) (suc i) x = ground (arith, is_running-remove_at running i x)

module _ (arrange : List Text → List Text) (wide_word : ℕ → Bool)
    (arranged : IsArrangement arrange) where
  step-IsId :
      (e : Event) (p : Pool)
      → All (All IsId) p.running
      → All (All IsId) (pool_step arrange wide_word e p).running
  unfolding pool_step
  step-IsId (reads raw_text) p h = (start-IsId arrange wide_word arranged raw_text p.cid_file, h)
  step-IsId (writes i) p h = remove_at-IsId p.running i h

  step-IsEnded :
      (e : Event) (p : Pool)
      → IsEnded p.cid_file
      → IsEnded (pool_step arrange wide_word e p).cid_file
  unfolding pool_step
  step-IsEnded (reads raw_text) p h = h
  step-IsEnded (writes i) p h = append_ids-IsEnded (get_or p.running i []) p.cid_file h

  is_known-step :
      (e : Event) (p : Pool) (x : Text)
      → All (All IsId) p.running
      → IsEnded p.cid_file
      → is_known (pool_step arrange wide_word e p) x
        ≡ (is_known p x || is_read wide_word (e ∷ []) x)
  unfolding pool_step
  is_known-step (reads raw_text) p x h end =
      ground (arith, contains-start arrange wide_word arranged raw_text p.cid_file x)
  is_known-step (writes i) p x h end = ground (
    arith,
    contains-append_ids (get_or p.running i []) p.cid_file x (nth-IsId p.running i h) end,
    is_running-remove_at p.running i x,
  )

  -- If the last line of the file of ids ends with a newline, or there is no file yet, then whatever the order in which
  -- workers read the file and write to it, an id is in the file or about to be
  -- written exactly if it was so at first or one of the messages names it: no worker loses the ids of another one.
  pub pool_steps-union :
      (events : List Event) (p : Pool) (x : Text)
      → All (All IsId) p.running
      → IsEnded p.cid_file
      → is_known (pool_steps arrange wide_word events p) x
        ≡ (is_known p x || is_read wide_word events x)
  unfolding pool_steps
  pool_steps-union [] p x h end = ground arith
  pool_steps-union (e ∷ events) p x h end =
      pool_steps-union events (pool_step arrange wide_word e p) x (step-IsId e p h)
        (step-IsEnded e p end)
      ∙ ap (λ b. b || is_read wide_word events x) (is_known-step e p x h end)
      ∙ is_read_cons e events p x
    where
      is_read_cons :
          (e : Event) (events : List Event) (p : Pool) (x : Text)
          → ((is_known p x || is_read wide_word (e ∷ []) x) || is_read wide_word events x)
            ≡ (is_known p x || is_read wide_word (e ∷ events) x)
      is_read_cons (reads raw_text) events p x = ground arith
      is_read_cons (writes i) events p x = ground arith
