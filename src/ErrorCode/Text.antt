-- ===== src/ErrorCode/Text.antt =====
-- Which error codes have a text, and which code the table of texts means at each place: the comments
-- of `kErrorPrintout` name one.
use Prim.Native.String.{String}
use asrt.Base.{
  ℕ, zero, suc, ◌+◌, ◌-◌, ◌%◌, ◌^◌, ◌≤◌, ◌<◌, ◌≡◌, refl, ◌⊎◌, ◌↔◌, inl, inr, false, some, List, [],
  ◌∷◌, arith, ◌==◌, leb, ltb, if◌then◌else◌, length, get_elem?, get_elem?-of_lt, lt_of_get_elem?,
  Bool-cases,
}
use asrt.ErrorCode.{
  ErrorCode, to_underlying, is_system_error, error_printout, to_string_view, socket_already_open,
  socket_already_bound, protocol_mismatch, no_default_peer, operation_cancelled,
  socket_already_has_reactor, reactor_not_valid, reactor_not_available, invalid_reactor_handle,
  socket_in_blocking_mode, socket_not_open, socket_not_bound, socket_state_invalid,
  socket_not_connected, socket_already_connected, receive_operation_ongoing, send_operation_ongoing,
  listen_operation_ongoing, accept_operation_ongoing, unable_to_obtain_if_index,
  async_operation_in_progress, capacity_exceeded, read_insufficient_data, end_of_file, truncation,
  api_error, invalid_signal_number, reactor_entry_invalid, poll_error,
  connection_authentication_failed, timer_not_exist, default_error,
}

-- The codes that the comments beside the texts name, in the order of the table.
abbrev pub labels : List ErrorCode
labels =
    socket_already_open ∷ socket_already_bound ∷ protocol_mismatch ∷ no_default_peer
    ∷ operation_cancelled ∷ socket_already_has_reactor ∷ reactor_not_valid ∷ reactor_not_available
    ∷ invalid_reactor_handle ∷ socket_in_blocking_mode ∷ socket_not_open ∷ socket_not_bound
    ∷ socket_state_invalid ∷ socket_not_connected ∷ socket_already_connected
    ∷ receive_operation_ongoing ∷ send_operation_ongoing ∷ listen_operation_ongoing
    ∷ accept_operation_ongoing ∷ unable_to_obtain_if_index ∷ async_operation_in_progress
    ∷ capacity_exceeded ∷ read_insufficient_data ∷ end_of_file ∷ truncation ∷ api_error
    ∷ invalid_signal_number ∷ socket_already_bound ∷ reactor_entry_invalid ∷ poll_error
    ∷ connection_authentication_failed ∷ timer_not_exist ∷ default_error ∷ []

-- The value of the code that the table means for value 60000 + n.
abbrev pub meant : ℕ → ℕ
meant n = if ltb n 27 then 60000 + n else if n == 27 then 60001 else 59999 + n

Labelled : ℕ → List ErrorCode → Type 0
Labelled i [] = Unit
Labelled i (l ∷ ls) = (to_underlying l ≡ meant i) × Labelled (i + 1) ls

labels-Labelled : Labelled 0 labels
unfolding Labelled to_underlying
labels-Labelled = (
  refl,
  (
    refl,
    (
      refl,
      (
        refl,
        (
          refl,
          (
            refl,
            (
              refl,
              (
                refl,
                (
                  refl,
                  (
                    refl,
                    (
                      refl,
                      (
                        refl,
                        (
                          refl,
                          (
                            refl,
                            (
                              refl,
                              (
                                refl,
                                (
                                  refl,
                                  (
                                    refl,
                                    (
                                      refl,
                                      (
                                        refl,
                                        (
                                          refl,
                                          (
                                            refl,
                                            (
                                              refl,
                                              (
                                                refl,
                                                (
                                                  refl,
                                                  (
                                                    refl,
                                                    (
                                                      refl,
                                                      (
                                                        refl,
                                                        (refl, (refl, (refl, (refl, (refl, tt))))),
                                                      ),
                                                    ),
                                                  ),
                                                ),
                                              ),
                                            ),
                                          ),
                                        ),
                                      ),
                                    ),
                                  ),
                                ),
                              ),
                            ),
                          ),
                        ),
                      ),
                    ),
                  ),
                ),
              ),
            ),
          ),
        ),
      ),
    ),
  ),
)

label_at :
    (i n : ℕ) (ls : List ErrorCode) (l : ErrorCode)
    → Labelled i ls
    → get_elem? ls n ≡ some l
    → to_underlying l ≡ meant (i + n)
unfolding Labelled
label_at i n [] l h k = cc
label_at i zero (x ∷ xs) l h k = ground arith
label_at i (suc n) (x ∷ xs) l h k = ground (arith, label_at (i + 1) n xs l)

custom_text :
    (strerror : ℕ → String) (ec : ErrorCode) (n : ℕ) {text : String}
    → n < 33
    → to_underlying ec ≡ 60000 + n
    → get_elem? error_printout n ≡ some text
    → to_string_view strerror ec ≡ some text
unfolding to_string_view is_system_error
custom_text strerror ec n {text} h v there =
    let index : (to_underlying ec + 2 ^ 32 - 60000) % 2 ^ 32 ≡ n = omega arith in
    let big : leb (to_underlying ec) 133 ≡ false = ground arith in rw (big, index) there

printed-range :
    (strerror : ℕ → String) (ec : ErrorCode) (text : String)
    → to_underlying ec < 2 ^ 32
    → to_string_view strerror ec ≡ some text
    → (to_underlying ec ≤ 133) ⊎ ((60000 ≤ to_underlying ec) × (to_underlying ec ≤ 60032))
unfolding to_string_view is_system_error
printed-range strerror ec text h e = elim (Bool-cases (leb (to_underlying ec) 133)) [
  | inl small ↦ inl (ground arith)
  | inr large ↦
      let below =
        lt_of_get_elem? error_printout ((to_underlying ec + 2 ^ 32 - 60000) % 2 ^ 32)
          (rw large at e) in
      let short : length error_printout ≡ 33 = refl in inr (omega arith)
]

-- For a 32-bit value, a text is printed exactly when the value is an errno up to EHWPOISON or one of
-- the 33 values from 60000 on; for every other value the table is read out of its range.
pub to_string_view_iff :
    (strerror : ℕ → String) (ec : ErrorCode)
    → to_underlying ec < 2 ^ 32
    → ((text : String) × (to_string_view strerror ec ≡ some text))
      ↔ ((to_underlying ec ≤ 133) ⊎ ((60000 ≤ to_underlying ec) × (to_underlying ec ≤ 60032)))
unfolding to_string_view is_system_error
to_string_view_iff strerror ec h = (
  λ (text, e). printed-range strerror ec text h e,
  λ r. elim r [
    | inl small ↦ (strerror (to_underlying ec), ground arith)
    | inr custom ↦
        let (text, there) =
          get_elem?-of_lt error_printout (to_underlying ec - 60000) (omega arith) in
        (text, custom_text strerror ec (to_underlying ec - 60000) (omega arith) (omega arith) there)
  ],
)

-- The texts are shifted. For each of the 33 values from 60000 on, the text printed is the one that the
-- table's comments mean for that very code up to value 60026; for 60027 it is the text for a socket
-- that is already bound; and for every later code it is the text meant for the code before it.
pub texts_shifted :
    (strerror : ℕ → String) (ec : ErrorCode) (n : ℕ)
    → n < 33
    → to_underlying ec ≡ 60000 + n
    → (label : ErrorCode) × (text : String) × (to_string_view strerror ec ≡ some text)
      × (get_elem? error_printout n ≡ some text)
      × (get_elem? labels n ≡ some label)
      × (to_underlying label ≡ meant n)
unfolding to_string_view is_system_error
texts_shifted strerror ec n h v =
    let (label, at) = get_elem?-of_lt labels n (omega arith) in
    let (text, there) = get_elem?-of_lt error_printout n (omega arith) in
    (
      label,
      text,
      custom_text strerror ec n h v there,
      there,
      at,
      ground (arith, label_at 0 n labels label labels-Labelled at),
    )
