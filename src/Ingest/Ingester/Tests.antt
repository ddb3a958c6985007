-- ===== src/Ingest/Ingester/Tests.antt =====
-- A tail of three strings, the second empty.
use green_gate.Base.{◌≡◌, refl, List, [], ◌∷◌, arith, get_or}
use green_gate.Base.Bytes.{Bytes, codes}
use green_gate.Query.Tail.{Memory, memory_of, string_at}
use green_gate.Ingest.Tail.{string_data, tail_payload_of}
use green_gate.Ingest.Tail.Laws.{string_at-tail_payload_of}
use green_gate.Ingest.Ingester.{sign_extend}

abbrev three : List Bytes
three = codes "abc" ∷ ([] ∷ (codes "x" ∷ []))

abbrev ones : Memory
ones p = 1

string_at-tail_payload_of_example :
    string_at (memory_of ones (tail_payload_of three)) 2 ≡ get_or three 2 []
string_at-tail_payload_of_example =
    string_at-tail_payload_of ones three 2 (omega arith) (unfold string_data in omega arith)

sign_extend_minus_one : sign_extend 8 255 ≡ 0xFFFFFFFFFFFFFFFF
unfolding sign_extend
sign_extend_minus_one = refl
