-- ===== src/Tests/Data.antt =====
-- Inputs that the tests share.
use cluster_size_operator_fo.Prelude.{ℕ, List, [], ◌∷◌}
use cluster_size_operator_fo.Text.{Text, codes}
use cluster_size_operator_fo.Dates.{Date}
use cluster_size_operator_fo.Dates.Stamp.{TimeError, os_error}
use cluster_size_operator_fo.Compliance.{Latest}

abbrev pub header_record : Text
header_record = codes "H,c1,4,Premium,0,BareMetal,0,1"

abbrev pub node_record : Text
node_record = codes "N,c1,node-1,worker,AMD64,9,64"

abbrev pub lookup_record : Text
lookup_record = codes "R,MT00LjIwLjI3LDI9NC4xOS4zMA=="

abbrev pub signature_record : Text
signature_record = codes "T,beef"

abbrev pub cloud_record : Text
cloud_record = codes "H,c2,4,Premium,0,AWS,0,1"

abbrev pub no_records : Latest
no_records = record { headers = []; nodes = []; versions = [] }

abbrev pub first_day : Date
first_day = record { year = 2025; month = 1; day = 1 }

abbrev pub last_day : Date
last_day = record { year = 2025; month = 12; day = 31 }

abbrev pub names : List Text
names =
    codes "major_minor"
    ∷ codes "t1_start"
    ∷ codes "t1_end"
    ∷ codes "t2_start"
    ∷ codes "t2_end"
    ∷ codes "t3_start"
    ∷ codes "t3_end"
    ∷ []

abbrev pub release_record : List Text
release_record =
    codes "4.20"
    ∷ codes "2025-01-01"
    ∷ codes "2025-12-31"
    ∷ codes ""
    ∷ codes ""
    ∷ codes ""
    ∷ codes ""
    ∷ []

abbrev pub late : ℕ → TimeError
late k = os_error
