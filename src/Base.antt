-- ===== src/Base.antt =====
-- The names that all the other modules share: those of the libraries, passed on, and those of the
-- children: tests on numbers, lists, integers and the outcome of code that may raise.
mod Tests
mod Lists
mod Int
mod Outcome
pub use Tests.*
pub use Lists.{
  length, select, select-append, length-append, All, All-append, All-imp, All-select, All-map,
  All-both, All_intro, each,
}
unfoldable pub use Lists.{first_where, update_first}
pub use Int.{
  ℤ, pos, negsuc, pos_part, neg_part, sub_ℕ, ◌≤ℤ◌, ltb_ℤ, eq_ℤ, +ℤ_parts, neg_parts, eq_of_parts,
  +ℤ_zero, zero_+ℤ, +ℤ_assoc, +ℤ_comm, +ℤ_swap,
}
unfoldable pub use Int.{◌+ℤ◌, neg}
pub use Int.{int_laws}
pub use Outcome.*
pub use Prim.Native.Nat.{ℕ, zero, suc, ◌+◌, ◌-◌, ◌*◌, ◌/◌, ◌%◌, ◌^◌, ◌≤◌, ◌<◌}
pub use mathlib.Core.Path.{◌≡◌, refl, sym, ap, ◌∙◌, ◌≡⟨◌⟩◌, ◌∎}
pub use mathlib.Core.Logic.{◌≢◌, ◌↔◌, ◌⊎◌, inl, inr}
pub use mathlib.Core.Bool.{Bool, true, false, ◌&&◌, ◌||◌, not}
pub use mathlib.Core.Option.{Option, none, some}
pub use mathlib.Core.List.{List, [], ◌∷◌, ◌++◌, map, append-nil, append_assoc}
pub use native.Mathlib.Omega.{arith}
