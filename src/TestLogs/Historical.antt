-- ===== src/TestLogs/Historical.antt =====
-- telemetry_receiver/load_integrity_tets/generate_historical_test_logs.py: the logs of one cluster over
-- half a year.
use cluster_size_operator_fo.Prelude.{List, [], ◌∷◌, list_eq, nat_eq}
use cluster_size_operator_fo.Text.{Text, codes}
use cluster_size_operator_fo.Dict.{Dict}
use cluster_size_operator_fo.TestLogs.{of_cluster, lines_text, append_files}

abbrev pub uuid_historical : Text
uuid_historical = codes "999924f5-4252-4883-b587-01110c52ef2f"

abbrev pub lines_2026_01_15 : List Text
lines_2026_01_15 =
    of_cluster "H," uuid_historical
      ",3,4.20.0,4.19.0,2026-01-15 09:00:00 UTC,None,2026-01-15 10:00:00 UTC,amd64"
    ∷ of_cluster "N," uuid_historical ",hist-node-01,control-plane master,40,true"
    ∷ of_cluster "N," uuid_historical ",hist-node-02,control-plane master,40,true"
    ∷ of_cluster "N," uuid_historical ",hist-node-03,worker,50,true"
    ∷ codes "R,UiwxPTQuMjAuMCwyPTQuMTkuMA=="
    ∷ codes "T,token-hist-jan"
    ∷ []

abbrev pub lines_2026_03_10 : List Text
lines_2026_03_10 =
    of_cluster "H," uuid_historical
      ",3,4.20.10,4.19.0,2026-01-15 09:00:00 UTC,None,2026-03-10 10:00:00 UTC,amd64"
    ∷ of_cluster "N," uuid_historical ",hist-node-01,control-plane master,40,true"
    ∷ of_cluster "N," uuid_historical ",hist-node-02,control-plane master,40,true"
    ∷ of_cluster "N," uuid_historical ",hist-node-03,worker,50,true"
    ∷ codes "R,UiwxPTQuMjAuMTAsMj00LjE5LjA="
    ∷ codes "T,token-hist-mar"
    ∷ []

abbrev pub lines_2026_05_20 : List Text
lines_2026_05_20 =
    of_cluster "H," uuid_historical
      ",4,4.20.10,4.19.0,2026-01-15 09:00:00 UTC,None,2026-05-20 10:00:00 UTC,amd64"
    ∷ of_cluster "N," uuid_historical ",hist-node-01,control-plane master,40,true"
    ∷ of_cluster "N," uuid_historical ",hist-node-02,control-plane master,40,true"
    ∷ of_cluster "N," uuid_historical ",hist-node-03,worker,50,true"
    ∷ of_cluster "N," uuid_historical ",hist-node-04,worker,50,true"
    ∷ codes "R,UiwxPTQuMjAuMTAsMj00LjE5LjA="
    ∷ codes "T,token-hist-may"
    ∷ []

abbrev pub lines_2026_07_14 : List Text
lines_2026_07_14 =
    of_cluster "H," uuid_historical
      ",4,4.20.27,4.19.30,2026-01-15 09:00:00 UTC,None,2026-07-14 15:30:00 UTC,amd64"
    ∷ of_cluster "N," uuid_historical ",hist-node-01,control-plane master,40,true"
    ∷ of_cluster "N," uuid_historical ",hist-node-02,control-plane master,40,true"
    ∷ of_cluster "N," uuid_historical ",hist-node-03,worker,50,true"
    ∷ of_cluster "N," uuid_historical ",hist-node-04,worker,50,true"
    ∷ codes "R,UiwxPTQuMjAuMjcsMj00LjE5LjMw"
    ∷ codes "T,token-hist-jul"
    ∷ []

-- The names of the files, with what is written to them.
abbrev pub logs_by_date : List (Text × Text)
logs_by_date =
    (codes "telemetry_2026-01-15.log", lines_text lines_2026_01_15)
    ∷ (codes "telemetry_2026-03-10.log", lines_text lines_2026_03_10)
    ∷ (codes "telemetry_2026-05-20.log", lines_text lines_2026_05_20)
    ∷ (codes "telemetry_2026-07-14.log", lines_text lines_2026_07_14)
    ∷ []

-- The script, with the files of the log folder before and after it.
unfoldable pub generate_historical_test_logs : Dict Text Text → Dict Text Text
generate_historical_test_logs dir = append_files logs_by_date dir
