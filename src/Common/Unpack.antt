-- ===== src/Common/Unpack.antt =====
-- What the callback is called with for a sequence of frames.
use emserver.Base.{◌≡◌, refl, ap, ◌∙◌, List, [], ◌∷◌, ◌++◌, Option, none, some}
use emserver.Protocol.{BaseProtocol}
use emserver.Common.{CommonMessage, CommonCodec, unpack}

module _ (codec : CommonCodec) where
  unfoldable pub handed_over : Option CommonMessage → List CommonMessage → List CommonMessage
  handed_over none ms = ms
  handed_over (some m) ms = m ∷ ms

  -- What the callback gets from a sequence of frames.
  unfoldable pub unpack_all : List BaseProtocol → List CommonMessage
  unfolding handed_over
  unpack_all [] = []
  unpack_all (b ∷ bs) = handed_over (unpack codec b) (unpack_all bs)

  handed_over-append :
      (o : Option CommonMessage) (ms ns : List CommonMessage)
      → handed_over o (ms ++ ns) ≡ handed_over o ms ++ ns
  unfolding handed_over
  handed_over-append none ms ns = refl
  handed_over-append (some m) ms ns = refl

  pub unpack_all-append :
      (bs cs : List BaseProtocol) → unpack_all (bs ++ cs) ≡ unpack_all bs ++ unpack_all cs
  unfolding unpack_all
  unpack_all-append [] cs = refl
  unpack_all-append (b ∷ bs) cs =
      ap (handed_over (unpack codec b)) (unpack_all-append bs cs)
      ∙ handed_over-append (unpack codec b) (unpack_all bs) (unpack_all cs)
