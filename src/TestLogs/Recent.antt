-- ===== src/TestLogs/Recent.antt =====
-- telemetry_receiver/load_integrity_tets/generate_test_logs.py: the logs of three days, with two and
-- then three clusters.
use cluster_size_operator_fo.Prelude.{List, [], ◌∷◌, list_eq, nat_eq}
use cluster_size_operator_fo.Text.{Text, codes}
use cluster_size_operator_fo.Dict.{Dict}
use cluster_size_operator_fo.TestLogs.{of_cluster, lines_text, write_files}

abbrev pub uuid_a : Text
uuid_a = codes "aaaa24f5-4252-4883-b587-01110c52ef2f"

abbrev pub uuid_b : Text
uuid_b = codes "bbbb24f5-4252-4883-b587-01110c52ef2f"

abbrev pub uuid_c : Text
uuid_c = codes "cccc24f5-4252-4883-b587-01110c52ef2f"

abbrev pub lines_12 : List Text
lines_12 =
    of_cluster "H," uuid_a
      ",6,4.20.27,4.19.30,2026-06-30 13:57:58 UTC,None,2026-07-12 10:00:00 UTC,amd64"
    ∷ of_cluster "N," uuid_a ",prod-master-01,control-plane master,40,true"
    ∷ of_cluster "N," uuid_a ",prod-master-02,control-plane master,40,true"
    ∷ of_cluster "N," uuid_a ",prod-master-03,control-plane master,40,true"
    ∷ of_cluster "N," uuid_a ",prod-worker-01,worker,50,true"
    ∷ of_cluster "N," uuid_a ",prod-worker-02,worker,50,true"
    ∷ of_cluster "N," uuid_a ",prod-worker-03,worker,50,true"
    ∷ codes "R,UiwxPTQuMjAuMjcsMj00LjE5LjMw"
    ∷ codes "T,token-prod-giorno-12"
    ∷ of_cluster "H," uuid_b
        ",4,4.20.27,4.19.30,2026-06-30 13:57:58 UTC,None,2026-07-12 10:05:00 UTC,amd64"
    ∷ of_cluster "N," uuid_b ",stage-master-01,control-plane master,40,true"
    ∷ of_cluster "N," uuid_b ",stage-master-02,control-plane master,40,true"
    ∷ of_cluster "N," uuid_b ",stage-master-03,control-plane master,40,true"
    ∷ of_cluster "N," uuid_b ",stage-worker-01,worker,50,true"
    ∷ codes "R,UiwxPTQuMjAuMjcsMj"
    ∷ codes "T,token-stage-giorno-12"
    ∷ []

abbrev pub log_12 : Text
log_12 = lines_text lines_12

abbrev pub lines_13 : List Text
lines_13 =
    of_cluster "H," uuid_a
      ",5,4.20.27,4.19.30,2026-06-30 13:57:58 UTC,None,2026-07-13 10:00:00 UTC,amd64"
    ∷ of_cluster "N," uuid_a ",prod-master-01,control-plane master,40,true"
    ∷ of_cluster "N," uuid_a ",prod-master-02,control-plane master,40,true"
    ∷ of_cluster "N," uuid_a ",prod-master-03,control-plane master,40,true"
    ∷ of_cluster "N," uuid_a ",prod-worker-01,worker,50,true"
    ∷ of_cluster "N," uuid_a ",prod-worker-02,worker,50,true"
    ∷ codes "R,UiwxPTQuMjAuMjcsMj00LjE5LjMw"
    ∷ codes "T,token-prod-giorno-13"
    ∷ of_cluster "H," uuid_b
        ",4,4.20.27,4.19.30,2026-06-30 13:57:58 UTC,None,2026-07-13 10:05:00 UTC,amd64"
    ∷ of_cluster "N," uuid_b ",stage-master-01,control-plane master,40,true"
    ∷ of_cluster "N," uuid_b ",stage-master-02,control-plane master,40,true"
    ∷ of_cluster "N," uuid_b ",stage-master-03,control-plane master,40,true"
    ∷ of_cluster "N," uuid_b ",stage-worker-01,worker,50,true"
    ∷ codes "R,UiwxPTQuMjAuMjcsMj"
    ∷ codes "T,token-stage-giorno-13"
    ∷ []

abbrev pub log_13 : Text
log_13 = lines_text lines_13

abbrev pub lines_14 : List Text
lines_14 =
    of_cluster "H," uuid_a
      ",6,4.20.27,4.19.30,2026-06-30 13:57:58 UTC,None,2026-07-14 13:58:00 UTC,amd64"
    ∷ of_cluster "N," uuid_a ",prod-master-01,control-plane master,40,true"
    ∷ of_cluster "N," uuid_a ",prod-master-02,control-plane master,40,true"
    ∷ of_cluster "N," uuid_a ",prod-master-03,control-plane master,40,true"
    ∷ of_cluster "N," uuid_a ",prod-worker-01,worker,50,true"
    ∷ of_cluster "N," uuid_a ",prod-worker-02,worker,50,true"
    ∷ of_cluster "N," uuid_a ",prod-worker-04,worker,50,true"
    ∷ codes "R,UiwxPTQuMjAuMjcsMj00LjE5LjMw"
    ∷ codes "T,token-prod-giorno-14"
    ∷ of_cluster "H," uuid_c
        ",3,4.20.27,4.19.30,2026-07-14 08:00:00 UTC,None,2026-07-14 13:58:50 UTC,amd64"
    ∷ of_cluster "N," uuid_c ",edge-compact-01,control-plane master worker,40,true"
    ∷ of_cluster "N," uuid_c ",edge-compact-02,control-plane master worker,40,true"
    ∷ of_cluster "N," uuid_c ",edge-compact-03,control-plane master worker,40,true"
    ∷ codes "R,UiwxPTQuMjU="
    ∷ codes "T,token-edge-giorno-14"
    ∷ []

abbrev pub log_14 : Text
log_14 = lines_text lines_14

abbrev pub files : List (Text × Text)
files =
    (codes "telemetry_2026-07-12.log", log_12)
    ∷ (codes "telemetry_2026-07-13.log", log_13)
    ∷ (codes "telemetry_2026-07-14.log", log_14)
    ∷ []

-- The script, with the files of the log folder before and after it.
unfoldable pub generate_test_logs : Dict Text Text → Dict Text Text
generate_test_logs dir = write_files files dir
