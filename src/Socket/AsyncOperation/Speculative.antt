-- ===== src/Socket/AsyncOperation/Speculative.antt =====
-- An operation that is tried when it is started, against one that waits for the reactor.
use asrt.Base.{
  ℕ, ◌≡◌, refl, sym, ap, subst, Bool, true, false, Option, some, List, ◌∷◌, ◌++◌, All, arith, ◌⊎◌,
}
use asrt.ErrorCode.{Result, ok, err}
use asrt.NetBuffer.{BufferView, contents, advance}
use asrt.Socket.AsyncOperation.{
  AsyncOperation, OperationType, send, receive, Outcome, complete, async_needed, do_perform,
  perform_initiation, perform_continuation, on_continuation, on_initiation, finish_continuation,
  finish_initiation, start_only, is_initiation, is_receive, completed_with, try_again_later,
  continuation,
}
use asrt.Socket.AsyncOperation.Rounds.{IsKernel}
use asrt.Socket.AsyncOperation.Transfer.{Progress, Moves, transfer, kernel_moves, transfer-Moves}

advance_zero : (v : BufferView) → advance 0 v ≡ v
unfolding advance
advance_zero v = ground arith

module _ {H : Type 0} where
  abbrev pub SameOutcome : Outcome H ℕ → Outcome H ℕ → Type 0
  SameOutcome o p =
      (o.status ≡ p.status)
      × (o.handled ≡ p.handled)
      × (o.notified ≡ p.notified)
      × ((o.status ≡ complete) ⊎ (o.after ≡ p.after))

  same_answer :
      (op_type : OperationType) (is_exhaustive : Bool) (v : BufferView) (h : H)
      (kernel : BufferView → Result ℕ) (op : AsyncOperation H ℕ) (answer : Result ℕ)
      → kernel v ≡ answer
      → op.operation_ongoing ≡ false
      → let o = perform_initiation op_type true is_exhaustive v h kernel op in
        let begun = (perform_initiation op_type false is_exhaustive v h kernel op).after in
        SameOutcome o
          (finish_continuation (do_perform op_type continuation v is_exhaustive kernel begun))
  unfolding perform_initiation do_perform finish_continuation finish_initiation is_initiation
      is_receive completed_with try_again_later on_continuation on_initiation start_only
  same_answer send is_exhaustive v h kernel op (ok n) e fresh = ground (arith, advance_zero v)
  same_answer send is_exhaustive v h kernel op (err error) e fresh = ground (arith, advance_zero v)
  same_answer receive is_exhaustive v h kernel op (ok n) e fresh = ground (arith, advance_zero v)
  same_answer receive is_exhaustive v h kernel op (err error) e fresh =
      ground (arith, advance_zero v)

  -- Trying an operation when it is started comes to the same as starting it and giving it a round of the
  -- reactor with the same answer of the kernel, where no operation is under way: the same status, bytes
  -- handled and notification, and the same operation where the reactor is needed.
  pub speculative_round :
      (op_type : OperationType) (is_exhaustive : Bool) (v : BufferView) (h : H)
      (kernel : BufferView → Result ℕ) (op : AsyncOperation H ℕ)
      → op.operation_ongoing ≡ false
      → let begun = (perform_initiation op_type false is_exhaustive v h kernel op).after in
        (o : Outcome H ℕ) × (perform_continuation op_type kernel begun ≡ some o)
        × SameOutcome (perform_initiation op_type true is_exhaustive v h kernel op) o
  unfolding perform_initiation perform_continuation on_initiation start_only
  speculative_round op_type is_exhaustive v h kernel op fresh = (
    finish_continuation (
        do_perform op_type continuation v is_exhaustive kernel
          (on_initiation h v is_exhaustive 0 op)),
    ap
        (λ (w : BufferView). some (
          finish_continuation (
            do_perform op_type continuation w is_exhaustive kernel
              (on_initiation h v is_exhaustive 0 op))))
        (advance_zero v),
    same_answer op_type is_exhaustive v h kernel op (kernel v) refl fresh,
  )

  -- The rounds of the reactor behind a first attempt at the view, if it needs them.
  unfoldable pub follow :
      OperationType
      → List ℕ
      → BufferView
      → (BufferView → Result ℕ)
      → List (BufferView → Result ℕ)
      → Outcome H ℕ
      → Progress H
  unfolding transfer
  follow op_type memory v kernel kernels o = elim o.status [
    | complete ↦ record {
      moved = kernel_moves memory kernel v;
      operation = o.after;
      notified = o.notified;
    }
    | async_needed ↦
        let rest = transfer op_type memory kernels o.after in
        record rest { moved = kernel_moves memory kernel v ++ rest.moved }
  ]

  follow-transfer :
      (op_type : OperationType) (memory : List ℕ) (v : BufferView) (kernel : BufferView → Result ℕ)
      (kernels : List (BufferView → Result ℕ)) (o q : Outcome H ℕ) (begun : AsyncOperation H ℕ)
      → perform_continuation op_type kernel begun ≡ some q
      → begun.buffer_view ≡ v
      → SameOutcome o q
      → let p = follow op_type memory v kernel kernels o in
        let r = transfer op_type memory (kernel ∷ kernels) begun in
        (p.moved ≡ r.moved) × (p.notified ≡ r.notified)
  unfolding follow transfer
  follow-transfer op_type memory v kernel kernels o q begun e view (status, handled, note, after) =
      ground arith

  Moves-along :
      {whole whole' moved moved' : List ℕ} {notified notified' : Option (Option H × Result ℕ)}
      (left : List ℕ) (handler : Option H)
      → whole ≡ whole'
      → moved ≡ moved'
      → notified ≡ notified'
      → Moves whole moved left handler notified
      → Moves whole' moved' left handler notified'
  Moves-along left handler e f g m =
      subst (λ (p : List ℕ × List ℕ × Option (Option H × Result ℕ)). Moves p.0 p.1 left handler p.2)
        (λ i. (e i, f i, g i)) m

  -- Whatever the kernel answers in whatever number of rounds, of which the first may be the speculative
  -- one: a completion with `ok` has moved the whole buffer, in order and each byte once; otherwise the
  -- bytes moved are those in front of some rest of the buffer. The handler that is notified is the one
  -- that was passed in. The operation is exhaustive, and none was under way.
  pub exhaustive_transfer :
      (op_type : OperationType) (memory : List ℕ) (v : BufferView) (h : H)
      (kernel : BufferView → Result ℕ) (kernels : List (BufferView → Result ℕ))
      (op : AsyncOperation H ℕ)
      → IsKernel kernel
      → All IsKernel kernels
      → op.operation_ongoing ≡ false
      → let p =
          follow op_type memory v kernel kernels
            (perform_initiation op_type true true v h kernel op) in
        (left : List ℕ) × Moves (contents memory v) p.moved left (some h) p.notified
  unfolding perform_initiation on_initiation start_only
  exhaustive_transfer op_type memory v h kernel kernels op fair fairs fresh =
      let begun : AsyncOperation H ℕ = on_initiation h v true 0 op in
      let p =
        follow op_type memory v kernel kernels
          (perform_initiation op_type true true v h kernel op) in
      let q = transfer op_type memory (kernel ∷ kernels) begun in
      let (o, e, like) = speculative_round op_type true v h kernel op fresh in
      let (moved, note) =
        follow-transfer op_type memory v kernel kernels
          (perform_initiation op_type true true v h kernel op) o begun e (advance_zero v) like in
      (
        contents memory q.operation.buffer_view,
        Moves-along (contents memory q.operation.buffer_view) (some h)
            (ap (contents memory) (advance_zero v)) (sym moved) (sym note)
            (transfer-Moves op_type memory (kernel ∷ kernels) begun (fair, fairs) (refl, refl)),
      )
