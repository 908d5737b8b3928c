-- ===== src/Containers/Order.antt =====
-- `std::less` of a key type, with the laws of a total order that the sorted containers rely on.
use process_manager_module.Base.{Bool, true, false, ◌≡◌}
use process_manager_module.Base.Int.{ℤ, ltb_ℤ, ltb_ℤ_asymm, ltb_ℤ_trans_ge, ltb_ℤ_antisymm}

pub record Order (K : Type 0) : Type 0 where
  pub less : K → K → Bool
  pub less_asymm : (a b : K) → less a b ≡ true → less b a ≡ false
  pub less_trans_ge : (a b c : K) → less a b ≡ false → less b c ≡ false → less a c ≡ false
  pub less_antisymm : (a b : K) → less a b ≡ false → less b a ≡ false → a ≡ b

instance abbrev pub int_order : Order ℤ
int_order = record {
  less = ltb_ℤ;
  less_asymm = ltb_ℤ_asymm;
  less_trans_ge = ltb_ℤ_trans_ge;
  less_antisymm = ltb_ℤ_antisymm;
}
