-- ===== src/Samples.antt =====
-- Test data that the modules of concrete runs share.
pub mod Messages
pub use emserver.Base.{codes}
use emserver.Base.{
  ℕ, zero, suc, ◌+◌, ◌%◌, ◌^◌, ◌<◌, ◌≡◌, refl, ap, [], ◌∷◌, Bytes, Option, none, some, Bool, true,
  false, arith,
}
use emserver.Protocol.{Checksum}
use emserver.Common.{CommonMessage, TransportContainer, CommonCodec, has}

-- A checksum that is easy to follow: the sum of the bytes.
sum_from : ℕ → Bytes → ℕ
sum_from acc [] = acc
sum_from acc (b ∷ bs) = sum_from (acc + b) bs

pub byte_sum : Bytes → ℕ
unfolding sum_from
byte_sum bs = sum_from 0 bs % 2 ^ 32

pub byte_sum-lt : (bs : Bytes) → byte_sum bs < 2 ^ 32
unfolding byte_sum
byte_sum-lt bs = omega arith

unfoldable pub sum32 : Checksum
unfolding byte_sum
sum32 = record { checksum = byte_sum; checksum-lt = byte_sum-lt }

-- A codec that is easy to follow: the number, and whether there is a payload, stand in front.
encode_fields : Option ℕ → Option Bytes → Bytes
encode_fields none payload = []
encode_fields (some n) none = n ∷ 0 ∷ []
encode_fields (some n) (some bs) = n ∷ 1 ∷ bs

decode_fields : Bytes → (Option ℕ × Option Bytes) × Bool
decode_fields (n ∷ zero ∷ bs) = ((some n, none), true)
decode_fields (n ∷ suc m ∷ bs) = ((some n, some bs), true)
decode_fields _ = ((none, none), false)

decode-encode_fields :
    (code : Option ℕ) (payload : Option Bytes)
    → has code ≡ true
    → decode_fields (encode_fields code payload) ≡ ((code, payload), true)
unfolding encode_fields decode_fields
decode-encode_fields none payload h = absurd (cc h)
decode-encode_fields (some n) none h = refl
decode-encode_fields (some n) (some bs) h = refl

to_common : (Option ℕ × Option Bytes) × Bool → CommonMessage × Bool
to_common (fields, success) = (record { code = fields.0; payload = fields.1 }, success)

to_container : (Option ℕ × Option Bytes) × Bool → TransportContainer × Bool
to_container (fields, success) =
    (record { contaiter_version = fields.0; payload = fields.1 }, success)

unfoldable pub plain_codec : CommonCodec
unfolding encode_fields decode_fields to_common to_container decode-encode_fields
plain_codec = record {
  serialize_common = λ m. encode_fields m.code m.payload;
  parse_common = λ bs. to_common (decode_fields bs);
  serialize_container = λ t. encode_fields t.contaiter_version t.payload;
  parse_container = λ bs. to_container (decode_fields bs);
  parse_common-serialize = λ m h. ap to_common (decode-encode_fields m.code m.payload h);
  parse_container-serialize =
      λ t h. ap to_container (decode-encode_fields t.contaiter_version t.payload h);
}
