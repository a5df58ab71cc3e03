-- ===== src/Sender/Payload/Rows.antt =====
-- The lines of a payload, as rows that a signature covers.
use cluster_size_operator_fo.Prelude.{
  ℕ, zero, suc, ◌+◌, ◌-◌, ◌*◌, ◌/◌, ◌%◌, ◌<◌, ◌≡◌, refl, true, List, [], ◌∷◌, ◌++◌, arith, All,
  All-append, All-map_imp, nat_eq, get_or,
}
use cluster_size_operator_fo.Prelude.Int.{ℤ, pos, negsuc, ◌-ℤ◌}
use cluster_size_operator_fo.Text.{Text, codes, join, starts_with}
use cluster_size_operator_fo.Text.Number.{is_digit, show, show_int}
use cluster_size_operator_fo.Text.Printed.{All-show}
use cluster_size_operator_fo.Base64.Ascii.{IsAscii, utf8_encode-IsAscii}
use cluster_size_operator_fo.Base64.{Bytes, b64encode, sextet_char}
use cluster_size_operator_fo.Sender.Payload.{
  pad3, node_row, node_rows, header_row, lookup_row, worker_role, payload_lines, lookup_str, always,
}
use cluster_size_operator_fo.Sender.Payload.Lines.{IsPlain, IsRow}

pub digit-IsPlain : (c : ℕ) → is_digit c ≡ true → IsPlain c
unfolding is_digit
digit-IsPlain c h = ground arith

show-plain : (n : ℕ) → All IsPlain (show n)
show-plain n = All-show IsPlain n digit-IsPlain

show_int-plain : (z : ℤ) → All IsPlain (show_int z)
unfolding show_int
show_int-plain (pos n) = show-plain n
show_int-plain (negsuc n) = ((omega arith, omega arith), show-plain (suc n))

pad3-plain : (n : ℕ) → All IsPlain (pad3 n)
unfolding pad3
pad3-plain n = ground (arith, show-plain n)

sextet_char-IsPlain : (v : ℕ) → v < 64 → IsPlain (sextet_char v)
sextet_char-IsPlain v h = ground arith

b64encode-plain : (s : Bytes) → All (λ c. c < 256) s → All IsPlain (b64encode s)
unfolding b64encode
b64encode-plain [] h = tt
b64encode-plain (a ∷ []) (ha, h) = (
  sextet_char-IsPlain (a / 4) (omega arith),
  (sextet_char-IsPlain (a % 4 * 16) (omega arith), omega arith),
)
b64encode-plain (a ∷ b ∷ []) (ha, (hb, h)) = (
  sextet_char-IsPlain (a / 4) (omega arith),
  (
    sextet_char-IsPlain (a % 4 * 16 + b / 16) (omega arith),
    (sextet_char-IsPlain (b % 16 * 4) (omega arith), omega arith),
  ),
)
b64encode-plain (a ∷ b ∷ c ∷ s) (ha, (hb, (hc, hs))) = (
  sextet_char-IsPlain (a / 4) (omega arith),
  (
    sextet_char-IsPlain (a % 4 * 16 + b / 16) (omega arith),
    (
      sextet_char-IsPlain (b % 16 * 4 + c / 64) (omega arith),
      (sextet_char-IsPlain (c % 64) (omega arith), b64encode-plain s hs),
    ),
  ),
)

pub join-plain : (parts : List Text) → All (All IsPlain) parts → All IsPlain (join b',' parts)
unfolding join
join-plain [] h = tt
join-plain (p ∷ []) (h, hs) = h
join-plain (p ∷ q ∷ parts) (h, hs) =
    All-append IsPlain p (b',' ∷ join b',' (q ∷ parts)) h
      ((omega arith, omega arith), join-plain (q ∷ parts) hs)

-- A cluster id: plain characters.
pub header_row-IsRow :
    (cluster_id : Text) (total_nodes now_epoch age : ℕ)
    → All IsPlain cluster_id
    → IsRow (header_row cluster_id total_nodes now_epoch age)
header_row-IsRow cluster_id total_nodes now_epoch age h = record {
  protected = unfold join starts_with nat_eq in refl;
  plain = join-plain _ (
    omega arith,
    (
      h,
      (
        show-plain total_nodes,
        (
          omega arith,
          (
            omega arith,
            (
              show_int-plain (pos now_epoch -ℤ pos age),
              (omega arith, (show-plain now_epoch, omega arith)),
            ),
          ),
        ),
      ),
    ),
  );
}

pub node_row-IsRow :
    (cluster_id : Text) (i : ℕ) (role cpu : Text)
    → All IsPlain cluster_id
    → All IsPlain role
    → All IsPlain cpu
    → IsRow (node_row cluster_id i role cpu)
node_row-IsRow cluster_id i role cpu h r k = record {
  protected = unfold join starts_with nat_eq in refl;
  plain = join-plain _ (omega arith, (h, (pad3-plain i, (r, (k, omega arith)))));
}

pub node_rows-IsRow :
    (cluster_id : Text) (role : ℕ → Text) (cpu : Text) (i count : ℕ)
    → All IsPlain cluster_id
    → ((j : ℕ) → All IsPlain (role j))
    → All IsPlain cpu
    → All IsRow (node_rows cluster_id role cpu i count)
node_rows-IsRow cluster_id role cpu i zero h r k = tt
node_rows-IsRow cluster_id role cpu i (suc count) h r k = (
  node_row-IsRow cluster_id i (role i) cpu h (r i) k,
  node_rows-IsRow cluster_id role cpu (suc i) count h r k,
)

pub lookup_row-IsRow : (s : Text) → IsAscii s → IsRow (lookup_row s)
lookup_row-IsRow s h = record {
  protected = unfold starts_with nat_eq in refl;
  plain = (
    (omega arith, omega arith),
    (
      (omega arith, omega arith),
      rw (utf8_encode-IsAscii s h)
          (b64encode-plain s (All-map_imp (λ c. c < 128) (λ c. c < 256) s (λ c p. omega arith) h)),
    ),
  );
}

get_or-plain :
    (texts : List Text) (i : ℕ) → All (All IsPlain) texts → All IsPlain (get_or texts i [])
get_or-plain [] i h = tt
get_or-plain (t ∷ texts) zero (h, hs) = h
get_or-plain (t ∷ texts) (suc i) (h, hs) = get_or-plain texts i hs

worker_role-plain : (random : ℕ → ℕ) (i : ℕ) → All IsPlain (worker_role random i)
worker_role-plain random i =
    get_or-plain (codes "5" ∷ codes "6" ∷ codes "7" ∷ []) (random i % 3) (omega arith)

pub parts-IsRow :
    (as' bs cs : List Text) (r : Text)
    → All IsRow as'
    → All IsRow bs
    → All IsRow cs
    → IsRow r
    → All IsRow (as' ++ (bs ++ (cs ++ r ∷ [])))
parts-IsRow as' bs cs r ha hb hc hr =
    All-append IsRow as' (bs ++ (cs ++ r ∷ [])) ha
      (All-append IsRow bs (cs ++ r ∷ []) hb (All-append IsRow cs (r ∷ []) hc (hr, tt)))

pub payload_lines-IsRow :
    (cluster_id : Text) (total_nodes now_epoch : ℕ) (random : ℕ → ℕ)
    → All IsPlain cluster_id
    → All IsRow (payload_lines cluster_id total_nodes now_epoch random)
unfolding payload_lines
payload_lines-IsRow cluster_id total_nodes now_epoch random h = (
  header_row-IsRow cluster_id total_nodes now_epoch 1000000 h,
  parts-IsRow (node_rows cluster_id (always (codes "3")) (codes "40") 1 3)
      (node_rows cluster_id (always (codes "4")) (codes "40") 4 6)
      (node_rows cluster_id (worker_role random) (codes "50") 10 (total_nodes - 9))
      (lookup_row lookup_str)
      (node_rows-IsRow cluster_id (always (codes "3")) (codes "40") 1 3 h (λ j. omega arith)
        (omega arith))
      (node_rows-IsRow cluster_id (always (codes "4")) (codes "40") 4 6 h (λ j. omega arith)
        (omega arith))
      (node_rows-IsRow cluster_id (worker_role random) (codes "50") 10 (total_nodes - 9) h
        (worker_role-plain random) (omega arith))
      (lookup_row-IsRow lookup_str (omega arith)),
)
