-- ===== src/Socket/AsyncOperation/Tests.antt =====
-- Asynchronous operations on concrete buffers.
use asrt.Base.{ℕ, ◌≡◌, refl, true, false, some, List, [], ◌∷◌, arith, min}
use asrt.ErrorCode.{Result, ok, err, try_again}
use asrt.NetBuffer.{BufferView, contents}
use asrt.Socket.AsyncOperation.{
  AsyncOperation, send, receive, Outcome, reset, perform_initiation, perform_continuation,
}
use asrt.Socket.AsyncOperation.Rounds.{IsKernel}
use asrt.Socket.AsyncOperation.Transfer.{Moves, transfer}
use asrt.Socket.AsyncOperation.Speculative.{
  SameOutcome, follow, speculative_round, exhaustive_transfer,
}
use asrt.Socket.AsyncOperation.Completion.{Progresses, transfer_completes}

abbrev bytes : List ℕ
bytes = 10 ∷ 11 ∷ 12 ∷ 13 ∷ 14 ∷ 15 ∷ []

abbrev middle : BufferView
middle = record { start = 1; size = 4 }

-- A kernel that has room for three bytes, and one that is busy.
abbrev three : BufferView → Result ℕ
three v = ok (min 3 v.size)

abbrev busy : BufferView → Result ℕ
busy v = err try_again

abbrev idle : AsyncOperation ℕ ℕ
idle = reset 0

abbrev sending : AsyncOperation ℕ ℕ
sending = record {
  total_bytes = 4;
  operation_ongoing = true;
  is_exhaustive = true;
  buffer_view = middle;
  completion_handler = some 7;
  completion_result = ok 0;
}

three-IsKernel : IsKernel three
three-IsKernel v n e = ground arith

busy-IsKernel : IsKernel busy
busy-IsKernel v n e = cc

three-Progresses : Progresses three
three-Progresses v h = (min 3 v.size, refl, omega arith)

speculative_round_example :
    let begun = (perform_initiation send false true middle 7 three idle).after in
    (o : Outcome ℕ ℕ) × (perform_continuation send three begun ≡ some o)
    × SameOutcome (perform_initiation send true true middle 7 three idle) o
speculative_round_example = speculative_round send true middle 7 three idle refl

exhaustive_transfer_example :
    let p =
      follow send bytes middle three
        (busy ∷ three ∷ [])
        (perform_initiation send true true middle 7 three idle) in
    (left : List ℕ) × Moves (contents bytes middle) p.moved left (some 7) p.notified
exhaustive_transfer_example =
    exhaustive_transfer send bytes middle 7 three (busy ∷ three ∷ []) idle three-IsKernel
      (busy-IsKernel, (three-IsKernel, tt)) refl

transfer_completes_example :
    let p = transfer receive bytes (three ∷ three ∷ three ∷ three ∷ []) sending in
    (n : ℕ) × (p.notified ≡ some (some 7, ok n)) × (p.moved ≡ contents bytes middle)
transfer_completes_example =
    transfer_completes receive bytes (three ∷ three ∷ three ∷ three ∷ []) sending
      (three-IsKernel, (three-IsKernel, (three-IsKernel, (three-IsKernel, tt))))
      (three-Progresses, (three-Progresses, (three-Progresses, (three-Progresses, tt))))
      (refl, refl) (omega arith) (omega arith)

abbrev connecting : AsyncOperation ℕ (Unit {0})
connecting = record {
  total_bytes = 4;
  operation_ongoing = true;
  is_exhaustive = false;
  buffer_view = middle;
  completion_handler = some 7;
  completion_result = ok tt;
}
