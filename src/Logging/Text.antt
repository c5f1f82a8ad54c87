-- ===== src/Logging/Text.antt =====
-- CServer::logging: what the application's function for logged text is called with.
use emserver.Base.{
  ℕ, ◌+◌, ◌%◌, ◌^◌, ◌<◌, ◌≤◌, ◌≡◌, ◌≢◌, refl, ap, ◌∙◌, [], ◌∷◌, ◌++◌, Option, none, some, Run, done,
  crash, sym, out_of_bounds, ◌>>=◌, Bytes, length, length-append, take, take-length, leb, le→leb,
  if◌then◌else◌, arith,
}
use emserver.Server.{CServer}
use emserver.Logging.{CnString}
use emserver.NativeServer.{on_logging}

-- The text with a zero behind it, in an array of `size` bytes.
zero_terminated : Bytes → ℕ → Run CnString
zero_terminated text size =
    if leb (length text) size
    then done (record { string_data = some (take size (text ++ (0 ∷ []))); size = size })
    else crash out_of_bounds

called_with : ℕ → Bytes → Run (Option (ℕ × CnString))
unfolding zero_terminated
called_with f [] = done none
called_with f (b ∷ text) =
    zero_terminated (b ∷ text) ((length (b ∷ text) + 1) % 2 ^ 32) >>= λ str. done (some (f, str))

-- CServer::logging. The size is a uint32_t.
unfoldable pub logging : Bytes → CServer → Run (Option (ℕ × CnString))
unfolding called_with
logging log_string s = elim s.on_log [ none ↦ done none | some f ↦ called_with f log_string ]

abbrev terminated : Bytes → CnString
terminated text = record { string_data = some (text ++ (0 ∷ [])); size = length text + 1 }

take-terminated : (text : Bytes) → take (length text + 1) (text ++ (0 ∷ [])) ≡ text ++ (0 ∷ [])
take-terminated text =
    ap (λ n. take n (text ++ (0 ∷ []))) (sym (length-append text (0 ∷ [])))
    ∙ take-length (text ++ (0 ∷ []))

zero_terminated-small :
    (text : Bytes)
    → length text + 1 < 2 ^ 32
    → zero_terminated text ((length text + 1) % 2 ^ 32) ≡ done (terminated text)
unfolding zero_terminated
zero_terminated-small text small =
    let fits : (length text + 1) % 2 ^ 32 ≡ length text + 1 = omega arith in
    rw (fits, le→leb (length text) (length text + 1) (omega arith), take-terminated text)

on_logging-terminated : (text : Bytes) → on_logging (terminated text) ≡ done (text ++ (0 ∷ []))
unfolding on_logging
on_logging-terminated text =
    let enough : length text + 1 ≤ length (text ++ (0 ∷ [])) =
      omega (arith, length-append text (0 ∷ [])) in
    rw (le→leb (length text + 1) (length (text ++ (0 ∷ []))) enough, take-terminated text)

-- The function that the application has registered is called with each text that is not empty, and
-- the example's program reads from what it gets the text with a zero behind it: the size that it is
-- given counts the zero.
pub logging-read :
    (text : Bytes) (s : CServer) (f : ℕ)
    → s.on_log ≡ some f
    → text ≢ []
    → length text + 1 < 2 ^ 32
    → (str : CnString) × (logging text s ≡ done (some (f, str)))
      × (on_logging str ≡ done (text ++ (0 ∷ [])))
unfolding logging
logging-read [] s f e full small = absurd (full refl)
logging-read (b ∷ text) s f e full small = (
  terminated (b ∷ text),
  rw (e, zero_terminated-small (b ∷ text) small),
  on_logging-terminated (b ∷ text),
)
