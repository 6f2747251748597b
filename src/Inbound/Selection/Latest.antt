-- ===== src/Inbound/Selection/Latest.antt =====
-- What `max` picks, and where a selected row comes from.
use emergency_contact.Prelude.{
  String, ◌≡◌, refl, ◌⊎◌, inl, inr, false, List, [], ◌∷◌, Bool-cases, Option, none, some, subst,
  sym,
}
use emergency_contact.Python.Values.{Fields}
use emergency_contact.Python.Order.{text_lt_irrefl, text_lt_asymm, text_ge_trans}
use emergency_contact.Inbound.Selection.{key_lt, key_of, latest_from, select_latest}

-- The row stands in the list.
abbrev pub In : Fields → List Fields → Type 0
In c [] = ⊥
In c (r ∷ rs) = (c ≡ r) ⊎ In c rs

-- No row of the list has a later key.
abbrev pub IsLatest : String → Fields → List Fields → Type 0
IsLatest attr c [] = Unit
IsLatest attr c (r ∷ rs) = (key_lt attr c r ≡ false) × IsLatest attr c rs

key_ge_trans :
    (attr : String) (a b c : Fields)
    → key_lt attr a b ≡ false
    → key_lt attr b c ≡ false
    → key_lt attr a c ≡ false
unfolding key_lt
key_ge_trans attr a b c = text_ge_trans (key_of attr a) (key_of attr b) (key_of attr c)

-- The winner stands in the list, and no row of it has a later key.
record Wins (attr : String) (c : Fields) (rows : List Fields) : Type 0 where
  listed : In c rows
  latest : IsLatest attr c rows

latest_from-Wins :
    (attr : String) (best : Fields) (rows : List Fields)
    → Wins attr (latest_from attr best rows) (best ∷ rows)
unfolding latest_from key_lt
latest_from-Wins attr best [] = record {
  listed = inl refl;
  latest = (text_lt_irrefl (key_of attr best), tt);
}
latest_from-Wins attr best (c ∷ cs) = elim (Bool-cases (key_lt attr best c)) [
  | inl later ↦
      let ih = latest_from-Wins attr c cs in
      rw later (record {
        listed = inr ih.listed;
        latest = (
          key_ge_trans attr _ c best ih.latest.0 (text_lt_asymm (key_of attr best) _ later),
          ih.latest,
        );
      })
  | inr kept ↦
      let ih = latest_from-Wins attr best cs in
      rw kept (record {
        listed = elim ih.listed [ inl e ↦ inl e | inr m ↦ inr (inr m) ];
        latest = (ih.latest.0, (key_ge_trans attr _ best c ih.latest.0 kept, ih.latest.1));
      })
]

In-latest :
    (attr : String) (c r : Fields) (rows : List Fields)
    → IsLatest attr c rows
    → In r rows
    → key_lt attr c r ≡ false
In-latest attr c r [] l m = absurd m
In-latest attr c r (x ∷ rows) l (inl e) = rw e l.0
In-latest attr c r (x ∷ rows) l (inr m) = In-latest attr c r rows l.1 m

-- The row is one of those in `P`, and none of those has a later key.
pub record IsLatestOf (P : Fields → Type 0) (attr : String) (c : Fields) (rows : List Fields)
    : Type 0 where
  pub listed : In c rows
  pub passes : P c
  pub latest : (r : Fields) → In r rows → P r → key_lt attr c r ≡ false

-- No row is in `P`.
abbrev pub NoneOf : (Fields → Type 0) → List Fields → Type 0
NoneOf P rows = (r : Fields) → In r rows → ¬ P r

-- `found` holds the rows in `P`, and no others.
pub record Filters (P : Fields → Type 0) (rows found : List Fields) : Type 0 where
  pub keeps : (r : Fields) → In r rows → P r → In r found
  pub sound : (r : Fields) → In r found → In r rows × P r

pub Filters-nil : (P : Fields → Type 0) → Filters P [] []
Filters-nil P = record { keeps = λ r m p. m; sound = λ r m. absurd m }

pub Filters-keep :
    (P : Fields → Type 0) (c : Fields) (rows found : List Fields)
    → P c
    → Filters P rows found
    → Filters P (c ∷ rows) (c ∷ found)
Filters-keep P c rows found p f = record {
  keeps = λ r m q. elim m [ inl e ↦ inl e | inr n ↦ inr (f.keeps r n q) ];
  sound = λ r m. elim m [
    | inl e ↦ (inl e, subst P (sym e) p)
    | inr n ↦ (inr (f.sound r n).0, (f.sound r n).1)
  ];
}

pub Filters-skip :
    (P : Fields → Type 0) (c : Fields) (rows found : List Fields)
    → ¬ P c
    → Filters P rows found
    → Filters P (c ∷ rows) found
Filters-skip P c rows found q f = record {
  keeps = λ r m p. elim m [ inl e ↦ absurd (q (subst P e p)) | inr n ↦ f.keeps r n p ];
  sound = λ r m. (inr (f.sound r m).0, (f.sound r m).1);
}

-- What the selection from the rows in `P` is.
abbrev pub Selects : (Fields → Type 0) → String → List Fields → Option Fields → Type 0
Selects P attr rows none = NoneOf P rows
Selects P attr rows (some c) = IsLatestOf P attr c rows

pub select_latest-Selects :
    (P : Fields → Type 0) (attr : String) (rows found : List Fields)
    → Filters P rows found
    → Selects P attr rows (select_latest attr found)
unfolding select_latest
select_latest-Selects P attr rows [] f = λ r m p. f.keeps r m p
select_latest-Selects P attr rows (c ∷ cs) f =
    let w = latest_from-Wins attr c cs in
    record {
      listed = (f.sound _ w.listed).0;
      passes = (f.sound _ w.listed).1;
      latest = λ r m p. In-latest attr _ r (c ∷ cs) w.latest (f.keeps r m p);
    }
