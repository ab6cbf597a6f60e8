-- ===== src/System/Nonneg.antt =====
-- Balances that are not negative, and the movements of money that keep them so.
use ai_spec_driven_developme.Models.{Account}
use ai_spec_driven_developme.Session.Numeric.{AllSound}
use ai_spec_driven_developme.System.Bounds.{AllStored}
use ai_spec_driven_developme.Prelude.{
  Bool-cases, List, String, [], eq_iff, eq_refl, inl, inr, str_eq, subst, sym, ◌++◌, ◌∷◌, false,
  true, ◌≡◌,
}
use ai_spec_driven_developme.Service.TransferService.Conversion.{IsNonneg}
use ai_spec_driven_developme.Session.Rows.Moves.{Moved, moved}
use ai_spec_driven_developme.Prelude.Int.{int_laws, pos, ℤ, ◌-ℤ◌, ◌≤ℤ◌}
use ai_spec_driven_developme.Session.Rows.{is_numbered, rows}
use ai_spec_driven_developme.Service.CrossCurrencyTransferService.Money.{rest}
use ai_spec_driven_developme.Session.Columns.{stored}

abbrev pub HasNonneg : Account → Type 0
HasNonneg a = IsNonneg a.balance

abbrev pub AllNonneg : List Account → Type 0
AllNonneg [] = Unit
AllNonneg (a ∷ l) = HasNonneg a × AllNonneg l

pub sound_stored : (l : List Account) → AllSound l → AllStored l
sound_stored [] sound = tt
sound_stored (a ∷ l) sound = ((sound.0.scale, sound.0.fits), sound_stored l sound.1)

pub sound_nonneg : (l : List Account) → AllSound l → AllNonneg l
sound_nonneg [] sound = tt
sound_nonneg (a ∷ l) sound = (sound.0.nonneg, sound_nonneg l sound.1)

pub both_sound : (l : List Account) → AllStored l → AllNonneg l → AllSound l
both_sound [] stored nonneg = tt
both_sound (a ∷ l) stored nonneg = (
  record { scale = stored.0.0; fits = stored.0.1; nonneg = nonneg.0 },
  both_sound l stored.1 nonneg.1,
)

-- Of the rows of a number.
rows_nonneg : (k : String) (l : List Account) → AllNonneg l → AllNonneg (rows k l)
unfolding rows
rows_nonneg k [] nonneg = tt
rows_nonneg k (a ∷ l) nonneg = elim (Bool-cases (is_numbered k a)) [
  | inl p ↦ rw p (nonneg.0, rows_nonneg k l nonneg.1)
  | inr p ↦ rw p (rows_nonneg k l nonneg.1)
]

first_row :
    (a : Account) (l : List Account) → rows a.account_number (a ∷ l) ≡ a ∷ rows a.account_number l
unfolding rows
first_row a l = rw (eq_refl a.account_number)

row_after :
    (k : String) (a : Account) (l : List Account)
    → AllNonneg (rows k (a ∷ l))
    → AllNonneg (rows k l)
unfolding rows
row_after k a l nonneg = elim (Bool-cases (is_numbered k a)) [
  | inl p ↦ (subst AllNonneg (found p) nonneg).1
  | inr p ↦ subst AllNonneg (passed p) nonneg
]
  where
    found : is_numbered k a ≡ true → rows k (a ∷ l) ≡ a ∷ rows k l
    found p = rw p

    passed : is_numbered k a ≡ false → rows k (a ∷ l) ≡ rows k l
    passed p = rw p

all_of_rows : (l : List Account) → ((k : String) → AllNonneg (rows k l)) → AllNonneg l
all_of_rows [] nonneg = tt
all_of_rows (a ∷ l) nonneg = (
  (subst AllNonneg (first_row a l) (nonneg a.account_number)).0,
  all_of_rows l (λ k. row_after k a l (nonneg k)),
)

-- Money that is moved from a balance that covers it, and adds nothing negative, leaves no balance
-- negative.
pub Moved-AllNonneg :
    {l after : List Account} {source dest : Account} {u q : ℤ}
    → Moved l source dest u q after
    → pos 0 ≤ℤ source.balance.coefficient -ℤ u
    → pos 0 ≤ℤ dest.balance.coefficient
    → pos 0 ≤ℤ q
    → AllNonneg l
    → AllNonneg after
Moved-AllNonneg {l} {after} {source} {dest} {u} {q} moved rest was gain nonneg =
    all_of_rows after of_number
  where
    of_number : (k : String) → AllNonneg (rows k after)
    of_number k = elim (Bool-cases (str_eq source.account_number k)) [
      | inl p ↦
          subst (λ n. AllNonneg (rows n after)) ((eq_iff source.account_number k).0 p)
            (subst AllNonneg (sym moved.source_after) (rest, tt))
      | inr p ↦ elim (Bool-cases (str_eq dest.account_number k)) [
        | inl o ↦
            subst (λ n. AllNonneg (rows n after)) ((eq_iff dest.account_number k).0 o)
              (subst AllNonneg (sym moved.dest_after) (omega (int_laws, was, gain), tt))
        | inr o ↦ subst AllNonneg (sym (moved.others k p o)) (rows_nonneg k l nonneg)
      ]
    ]

appended : (l : List Account) (a : Account) → HasNonneg a → AllNonneg l → AllNonneg (l ++ a ∷ [])
appended [] a h nonneg = (h, tt)
appended (b ∷ l) a h nonneg = (nonneg.0, appended l a h nonneg.1)
