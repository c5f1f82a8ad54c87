-- ===== src/NativeClient/Answers.antt =====
-- Several calls that are open at a time, and their answers in any order.
use emserver.Base.{
  ℕ, zero, suc, ◌+◌, ◌<◌, ◌≤◌, ◌^◌, ◌≡◌, refl, sym, ap, ◌∙◌, subst, List, [], ◌∷◌, some, true,
  false, ◌==◌, All, ℤ, pos, negsuc, arith, Bytes, codes, Bool-cases, inl, inr,
}
use mathlib.Core.List.{Permᴰ}
use emserver.Emserver.Proto.{EmserverCodec}
use emserver.Client.{EmserverAdapter, Session, ErrorDescriptor}
use emserver.Base.{to_i32-small, to_u32-small}
use emserver.Client.Sent.{request_sent}
use emserver.NativeClient.{
  EmserverAdapterQt, is_zero, eq_int, set_call, erase_call, remember, send_request_capabilities,
  on_server_runtime_notification,
}
use emserver.NativeClient.Calls.{erase_call-set_call, eq_int→eq}

abbrev Calls : Type 0
Calls = List (ℤ × Bytes)

-- The numbers of `n` calls from `first` on.
abbrev pub ids : ℕ → ℕ → List ℕ
ids first zero = []
ids first (suc n) = first ∷ ids (suc first) n

pub requests :
    EmserverCodec → ℕ → EmserverAdapterQt → EmserverAdapter → EmserverAdapterQt × EmserverAdapter
requests codec zero q a = (q, a)
requests codec (suc n) q a =
    let (q', a') = send_request_capabilities codec q a in requests codec n q' a'

pub answer_all : List ErrorDescriptor → EmserverAdapterQt → EmserverAdapterQt
answer_all [] q = q
answer_all (error ∷ errors) q = answer_all errors (on_server_runtime_notification error q)

-- A key is the number of an earlier call.
abbrev pub IsBefore : ℕ → ℤ → Type 0
IsBefore next (pos n) = n < next
IsBefore next (negsuc n) = ⊥

abbrev name : Bytes
name = codes "EmserverAdapterQt::sendRequestCapabilities"

set_all : ℕ → ℕ → Calls → Calls
set_all first zero calls = calls
set_all first (suc n) calls = set_all (suc first) n (set_call (pos first) name calls)

erase_all : List ℕ → Calls → Calls
erase_all [] calls = calls
erase_all (k ∷ ks) calls = erase_all ks (erase_call (pos k) calls)

erase_call_comm :
    (i j : ℤ) (calls : Calls)
    → erase_call i (erase_call j calls) ≡ erase_call j (erase_call i calls)
unfolding erase_call
erase_call_comm i j [] = refl
erase_call_comm i j (c ∷ calls) =
    let rest = erase_call_comm i j calls in
    elim (Bool-cases (eq_int c.0 i)) [
      | inl y ↦ elim (Bool-cases (eq_int c.0 j)) [
        | inl y' ↦
            let same : i ≡ j = sym (eq_int→eq c.0 i y) ∙ eq_int→eq c.0 j y' in rw (y, y', same)
        | inr n' ↦ rw (y, n', y)
      ]
      | inr n ↦ elim (Bool-cases (eq_int c.0 j)) [
        | inl y' ↦ rw (n, y')
        | inr n' ↦ rw (n, n', n, rest)
      ]
    ]

erase_all-Permᴰ :
    {xs ys : List ℕ} → Permᴰ xs ys → (calls : Calls) → erase_all xs calls ≡ erase_all ys calls
unfolding erase_all
erase_all-Permᴰ Permᴰ.nil calls = refl
erase_all-Permᴰ (Permᴰ.cons {a} {b} {l₁} {l₂} e p) calls =
    rw e (erase_all-Permᴰ p (erase_call (pos b) calls))
erase_all-Permᴰ (Permᴰ.swap {a} {b} {a'} {b'} {l} e e') calls =
    ap (erase_all l) (rw (e, e') (erase_call_comm (pos a') (pos b') calls))
erase_all-Permᴰ (Permᴰ.trans p q) calls = erase_all-Permᴰ p calls ∙ erase_all-Permᴰ q calls

erase_all-erase_call :
    (ks : List ℕ) (key : ℕ) (calls : Calls)
    → erase_all ks (erase_call (pos key) calls) ≡ erase_call (pos key) (erase_all ks calls)
unfolding erase_all
erase_all-erase_call [] key calls = refl
erase_all-erase_call (k ∷ ks) key calls =
    ap (erase_all ks) (erase_call_comm (pos k) (pos key) calls)
    ∙ erase_all-erase_call ks key (erase_call (pos k) calls)

before-fresh :
    (next : ℕ) (calls : Calls)
    → All (λ c. IsBefore next c.0) calls
    → All (λ c. eq_int c.0 (pos next) ≡ false) calls
before-fresh next [] h = tt
before-fresh next ((pos n, f) ∷ calls) h = (ground arith, before-fresh next calls h.1)
before-fresh next ((negsuc n, f) ∷ calls) h = absurd h.0

set_call-IsBefore :
    (next : ℕ) (f : Bytes) (calls : Calls)
    → All (λ c. IsBefore next c.0) calls
    → All (λ c. IsBefore (suc next) c.0) (set_call (pos next) f calls)
unfolding set_call
set_call-IsBefore next f [] h = (omega arith, tt)
set_call-IsBefore next f ((pos n, g) ∷ calls) h =
    let other : (n == next) ≡ false = ground arith in
    rw other (omega arith, set_call-IsBefore next f calls h.1)
set_call-IsBefore next f ((negsuc n, g) ∷ calls) h = absurd h.0

erase_all-set_all :
    (n first : ℕ) (calls : Calls)
    → All (λ c. IsBefore first c.0) calls
    → erase_all (ids first n) (set_all first n calls) ≡ calls
unfolding erase_all set_all
erase_all-set_all zero first calls h = refl
erase_all-set_all (suc n) first calls h =
    let with_first = set_call (pos first) name calls in
    erase_all-erase_call (ids (suc first) n) first (set_all (suc first) n with_first)
    ∙ ap (erase_call (pos first))
        (erase_all-set_all n (suc first) with_first (set_call-IsBefore first name calls h))
    ∙ erase_call-set_call (pos first) name calls (before-fresh first calls h)

unfoldable pub numbers : List ErrorDescriptor → List ℕ
numbers [] = []
numbers (error ∷ errors) = error.method_code ∷ numbers errors

-- An answer with a number from 1 to 2^31 - 1 has its call erased.
answered :
    (error : ErrorDescriptor) (q : EmserverAdapterQt)
    → 0 < error.method_code
    → error.method_code < 2 ^ 31
    → on_server_runtime_notification error q
      ≡ record q { calls = erase_call (pos error.method_code) q.calls }
unfolding on_server_runtime_notification
answered error q some_id small =
    let counted : (error.method_code == 0) ≡ false = ground arith in
    let key = to_i32-small error.method_code small in
    elim (Bool-cases (is_zero error.error_code)) [
      | inl y ↦ rw (counted, y, key)
      | inr n ↦ rw (counted, n, key)
    ]

abbrev IsCallNumber : ℕ → Type 0
IsCallNumber k = (0 < k) × (k < 2 ^ 31)

answer_all-erase_all :
    (errors : List ErrorDescriptor) (q : EmserverAdapterQt)
    → All IsCallNumber (numbers errors)
    → answer_all errors q ≡ record q { calls = erase_all (numbers errors) q.calls }
unfolding answer_all numbers erase_all
answer_all-erase_all [] q h = refl
answer_all-erase_all (error ∷ errors) q h = rw (answered error q h.0.0 h.0.1) (
    answer_all-erase_all errors (record q { calls = erase_call (pos error.method_code) q.calls })
      h.1)

requests-set_all :
    (codec : EmserverCodec) (n : ℕ) (q : EmserverAdapterQt) (a : EmserverAdapter)
    (session : Session)
    → a.session ≡ some session
    → session.is_open ≡ true
    → a.method_counter + n ≤ 2 ^ 31
    → (requests codec n q a).0 ≡ record q { calls = set_all a.method_counter n q.calls }
unfolding requests set_all send_request_capabilities remember
requests-set_all codec zero q a session e opened small = refl
requests-set_all codec (suc n) q a session e opened small =
    let below : a.method_counter < 2 ^ 31 = omega arith in
    rw
      (
        requests,
        request_sent codec a session e opened below,
        to_u32-small a.method_counter below,
        to_i32-small a.method_counter below,
      )
      (requests-set_all codec n _ _ session e opened (omega arith))

ids-IsCallNumber : (first n : ℕ) → 0 < first → first + n ≤ 2 ^ 31 → All IsCallNumber (ids first n)
ids-IsCallNumber first zero some_id small = tt
ids-IsCallNumber first (suc n) some_id small =
    ((some_id, omega arith), ids-IsCallNumber (suc first) n (omega arith) (omega arith))

All-Permᴰ : (P : ℕ → Type 0) {xs ys : List ℕ} → Permᴰ xs ys → All P xs → All P ys
All-Permᴰ P Permᴰ.nil h = h
All-Permᴰ P (Permᴰ.cons e p) h = (subst P e h.0, All-Permᴰ P p h.1)
All-Permᴰ P (Permᴰ.swap e e') h = (subst P e' h.1.0, (subst P e h.0, h.1.1))
All-Permᴰ P (Permᴰ.trans p q) h = All-Permᴰ P q (All-Permᴰ P p h)

-- The client sends any number of requests on its open session, and gets one answer to each, in any
-- order and with any codes: then it keeps exactly the calls that it kept before. Its counter starts
-- from 1 at least and does not go beyond 2^31, and the calls that it kept had smaller numbers.
pub answered_in_any_order :
    (codec : EmserverCodec) (n : ℕ) (q : EmserverAdapterQt) (a : EmserverAdapter)
    (session : Session) (errors : List ErrorDescriptor)
    → a.session ≡ some session
    → session.is_open ≡ true
    → 0 < a.method_counter
    → a.method_counter + n ≤ 2 ^ 31
    → All (λ c. IsBefore a.method_counter c.0) q.calls
    → Permᴰ (ids a.method_counter n) (numbers errors)
    → answer_all errors (requests codec n q a).0 ≡ q
answered_in_any_order codec n q a session errors e opened some_id small before p =
    let asked = requests-set_all codec n q a session e opened small in
    let all = set_all a.method_counter n q.calls in
    let answers =
      answer_all-erase_all errors (record q { calls = all })
        (All-Permᴰ IsCallNumber p (ids-IsCallNumber a.method_counter n some_id small)) in
    ap (answer_all errors) asked
    ∙ answers
    ∙ ap (λ calls. record q { calls = calls })
        (sym (erase_all-Permᴰ p all) ∙ erase_all-set_all n a.method_counter q.calls before)
