-- ===== src/Stream/Flip.antt =====
-- `setFlipHorizontal` and `flipHorizontal` of src/core/StreamReceiver.cpp, and the flags behind
-- them.
use iriseus.Prelude.{Bool, true, false, Option, none, some}

-- `m_flipHorizontal`, and that of the decoder, once there is one.
pub record Flip : Type 0 where
  pub own : Bool
  pub decoder : Option Bool

abbrev pub new_flip : Flip
new_flip = record { own = true; decoder = none }

abbrev pub decoder_flip : Bool → Option Bool → Option Bool
decoder_flip flip none = none
decoder_flip flip (some old) = some flip

unfoldable pub set_flip_horizontal : Bool → Flip → Flip
set_flip_horizontal flip f = record f { own = flip; decoder = decoder_flip flip f.decoder }

unfoldable pub flip_horizontal : Flip → Bool
flip_horizontal f = elim f.decoder [ none ↦ f.own | some flip ↦ flip ]

-- The decoder of `start`, by whether its `init` succeeded: if not, its flag stays as it is new.
unfoldable pub start_flip : Bool → Flip → Flip
start_flip true f = record f { decoder = some f.own }
start_flip false f = record f { decoder = some true }
