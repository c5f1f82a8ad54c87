-- ===== src/NativeClient/Calls.antt =====
-- The map of the calls that the example client keeps.
use emserver.Base.{ap, ◌≡◌, List, [], ◌∷◌, true, false, All, ℤ, pos, negsuc, arith, Bytes}
use emserver.NativeClient.{eq_int, set_call, erase_call}

pub eq_int→eq : (m n : ℤ) → eq_int m n ≡ true → m ≡ n
eq_int→eq (pos m) (pos n) h = ap pos (ground arith)
eq_int→eq (negsuc m) (negsuc n) h = ap negsuc (ground arith)
eq_int→eq (pos m) (negsuc n) h = absurd (cc h)
eq_int→eq (negsuc m) (pos n) h = absurd (cc h)

pub eq_int_refl : (m : ℤ) → eq_int m m ≡ true
eq_int_refl (pos m) = ground arith
eq_int_refl (negsuc m) = ground arith

-- What is set and erased was never there.
pub erase_call-set_call :
    (key : ℤ) (name : Bytes) (calls : List (ℤ × Bytes))
    → All (λ c. eq_int c.0 key ≡ false) calls
    → erase_call key (set_call key name calls) ≡ calls
unfolding erase_call set_call
erase_call-set_call key name [] h = rw (eq_int_refl key)
erase_call-set_call key name (c ∷ calls) h = rw (h.0, h.0, erase_call-set_call key name calls h.1)
