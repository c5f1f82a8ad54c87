-- ===== src/Protocol/Runs.antt =====
-- Concrete runs, and the theorems at concrete inputs.
use emserver.Base.{
  ◌≡◌, refl, [], ◌∷◌, ◌++◌, Bytes, length, arith, some, done, crash, out_of_bounds, le32, from_le32,
}
use emserver.Samples.{sum32, codes}
use emserver.Protocol.{BaseProtocol, make_protocol_message, extract_from_raw_data, no_failure}
use emserver.Protocol.Frame.{frame, covered, make_protocol_message-frame}
use emserver.Protocol.RoundTrip.{extract-frame}
use emserver.Protocol.Sound.{StartsWith, extract_sound}
use emserver.Protocol.Faults.{extract_wraps}

abbrev bucks : BaseProtocol
bucks = record { payload = codes "te$$ting" }

abbrev bucks_message : Bytes
bucks_message = 36 ∷ 8 ∷ 0 ∷ 0 ∷ 0 ∷ (codes "te$$ting" ++ (255 ∷ 2 ∷ 0 ∷ 0 ∷ []))

make_bucks : make_protocol_message sum32 bucks ≡ bucks_message
unfolding make_protocol_message sum32
make_bucks = refl

frame-bucks : frame sum32 bucks ≡ bucks_message
unfolding frame covered sum32 le32
frame-bucks = refl

extract_bucks : extract_from_raw_data sum32 (some bucks_message) 17 ≡ done (some bucks, no_failure)
unfolding extract_from_raw_data sum32 from_le32
extract_bucks = refl

make_protocol_message-frame_example : make_protocol_message sum32 bucks ≡ frame sum32 bucks
make_protocol_message-frame_example = make_protocol_message-frame sum32 bucks (omega arith)

extract-frame_example :
    extract_from_raw_data sum32
      (some (frame sum32 bucks ++ (1 ∷ [])))
      (length (frame sum32 bucks ++ (1 ∷ [])))
    ≡ done (some bucks, no_failure)
extract-frame_example = extract-frame sum32 bucks (1 ∷ []) (omega arith)

extract_sound_example : StartsWith sum32 bucks_message bucks × (no_failure ≡ no_failure)
extract_sound_example =
    extract_sound sum32 bucks_message bucks no_failure (omega arith) extract_bucks

extract_wraps_example :
    extract_from_raw_data sum32 (some (36 ∷ 247 ∷ 255 ∷ 255 ∷ 255 ∷ 0 ∷ [])) 6 ≡ crash out_of_bounds
unfolding from_le32
extract_wraps_example =
    extract_wraps sum32 247 255 255 255 0 [] (omega arith) (omega arith) (omega arith)
