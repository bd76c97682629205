-- ===== src/Assets/PoolNames.antt =====
-- A pool has one name, whichever of its assets is named first and however they are spelled.
use pokoinpos.Prelude.{◌≡◌, refl, ◌||◌, arith, if◌then◌else◌, ◌∙◌, ap, sym, ◌⊎◌, inl, inr}
use pokoinpos.Text.{Text, txt, is_empty, text_eq, text_eq_iff, trim_space, to_upper}
use pokoinpos.Text.Order.{text_ltb_asymm, text_ltb_antisymm}
use pokoinpos.Text.Case.{to_upper_idem}
use pokoinpos.Text.Trim.{trim_space_idem, trim_space-to_upper}
use pokoinpos.Assets.{asset_pkn, asset_wpkn, normalize_asset, pool_id}

-- The switch at the end of normalizeAsset.
abbrev canonical : Text → Text
canonical asset =
    if is_empty asset || text_eq asset asset_pkn
    then asset
    else if text_eq asset (txt "WPKN") || text_eq asset (txt "W-PKN")
    then asset_wpkn
    else asset

normalize_asset_lem : (name : Text) → normalize_asset name ≡ canonical (to_upper (trim_space name))
unfolding normalize_asset
normalize_asset_lem name = refl

normalize_asset-wpkn : normalize_asset asset_wpkn ≡ asset_wpkn
unfolding normalize_asset trim_space to_upper text_eq
normalize_asset-wpkn = refl

-- An upper-case text without spaces at its ends is only switched.
normalize_asset-upper :
    (s : Text) → normalize_asset (to_upper (trim_space s)) ≡ canonical (to_upper (trim_space s))
normalize_asset-upper s =
    rw (normalize_asset_lem, trim_space-to_upper, trim_space_idem, to_upper_idem)

canonical_cases : (x : Text) → (canonical x ≡ x) ⊎ (canonical x ≡ asset_wpkn)
canonical_cases x = ground arith

-- What is normalised stays as it is: keys may be normalised again on the way to a map.
pub normalize_asset_idem :
    (name : Text) → normalize_asset (normalize_asset name) ≡ normalize_asset name
normalize_asset_idem name = elim (canonical_cases (to_upper (trim_space name))) [
  | inl same ↦
      ap normalize_asset (normalize_asset_lem name ∙ same)
      ∙ (normalize_asset-upper name ∙ sym (normalize_asset_lem name))
  | inr w ↦
      let e = normalize_asset_lem name ∙ w in ap normalize_asset e ∙ (normalize_asset-wpkn ∙ sym e)
]

-- The order in which the two assets are given does not matter.
pub pool_id_comm : (a b : Text) → pool_id a b ≡ pool_id b a
unfolding pool_id
pool_id_comm a b =
    let x = normalize_asset a in
    let y = normalize_asset b in
    ground (
      arith,
      text_eq_iff x y,
      text_eq_iff y x,
      text_ltb_asymm x y,
      text_ltb_asymm y x,
      text_ltb_antisymm x y,
    )
