-- ===== src/Job/Tests.antt =====
-- Jobs on small inputs.
use socket_server_lib.Prelude.{
  replicate, ℕ, ◌-◌, ◌^◌, ◌≤◌, ◌≡◌, ◌↔◌, refl, true, none, some, List, [], ◌∷◌, arith, zero_memory,
  length-zero_memory,
}
use socket_server_lib.PacketData.{PacketData, IsValid}
use socket_server_lib.Job.{create_job}
use socket_server_lib.Job.Create.{create_job-none_iff, create_job-echo_long}
use socket_server_lib.Job.Answer.{request}

-- A message of a header alone, whose type is -1.
abbrev negative_type : List ℕ
negative_type = 12 ∷ 0 ∷ 0 ∷ 0 ∷ 255 ∷ 255 ∷ 255 ∷ 255 ∷ 5 ∷ 0 ∷ 0 ∷ 0 ∷ []

create_job-none_iff_example : (create_job 3 negative_type true ≡ none) ↔ (2 ^ 31 ≤ 2 ^ 32 - 1)
create_job-none_iff_example =
    create_job-none_iff 3 negative_type true {type = 2 ^ 32 - 1} {number = 5} (omega arith)
      (omega arith) refl refl

abbrev fresh_packet : PacketData
fresh_packet = record { buf = zero_memory 8192; size = 0; capacity = 8192 }

fresh_packet-IsValid : IsValid fresh_packet
fresh_packet-IsValid = record {
  allocated = length-zero_memory 8192;
  fits = omega arith;
  word = omega arith;
}

-- An echo request with as many bytes as the parameter has.
abbrev whole_parameter : List ℕ
whole_parameter = request 0 5 (replicate 84 65)

create_job-echo_long_example : create_job 3 whole_parameter true ≡ some none
create_job-echo_long_example =
    create_job-echo_long 3 whole_parameter true {number = 5} (omega arith) (omega arith) refl refl
