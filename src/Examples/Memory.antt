-- ===== src/Examples/Memory.antt =====
-- A table in memory, beside a number that counts. A key that is not the same as itself is refused with
-- an exception.
use emergency_contact.Prelude.{
  ℕ, ◌≡◌, refl, ◌⊎◌, inl, inr, Bool, true, false, Option, none, some, if◌then◌else◌, Bool-cases,
  String, str_eq, eq_iff, ◌&&◌, arith,
}
use emergency_contact.Python.Results.{Result, ok, err, value_error}
use emergency_contact.Python.Values.{Fields}
use emergency_contact.Python.Actions.{Action}
use emergency_contact.Aws.Tables.{Table}
use emergency_contact.Aws.Rows.{Rows, Writes, Checked, Removes, or_key}

module _ {K : Type 0} (same : K → K → Bool) (key : K → Fields) where
  abbrev pub Memory : Type 0
  Memory = (K → Option Fields) × ℕ

  abbrev pub put : (K → Option Fields) → K → Option Fields → K → Option Fields
  put rows k row j = if same j k then row else rows j

  abbrev pub answer : Memory → K → (Fields → Fields) → Bool → Bool → Result Bool × Memory
  answer w k change false passed = (err value_error, w)
  answer w k change true false = (ok false, w)
  answer w k change true true = (ok true, (put w.0 k (some (change (or_key (w.0 k) (key k)))), w.1))

  abbrev pub update : K → (Option Fields → Bool) → (Fields → Fields) → Action Memory Bool
  update k test change w = answer w k change (same k k) (test (w.0 k))

  abbrev pub removed : Memory → K → Bool → Result Bool × Memory
  removed w k true = (ok true, (put w.0 k none, w.1))
  removed w k false = (ok false, w)

  abbrev pub remove : K → (Option Fields → Bool) → Action Memory Bool
  remove k test w = removed w k (test (w.0 k))

  abbrev pub memory_table : Table Memory K
  memory_table = record {
    get_item = λ k w. (ok (w.0 k), w);
    put_item = λ k test row. update k test (λ old. row);
    update_item = update;
  }

  abbrev pub memory_rows : Rows Memory K
  memory_rows = record { row_at = λ w k. w.0 k; key_fields = key }

  module _ (sound : (j k : K) → same j k ≡ true → j ≡ k) where
    pub update-Writes :
        (k : K) (test : Option Fields → Bool) (change : Fields → Fields)
        → Writes memory_rows k test change (update k test change)
    update-Writes k test change = record {
      changed = λ w j. changed w j (same k k) (test (w.0 k)) refl;
      written = λ w h. written w (same k k) (test (w.0 k)) refl h;
      refused = λ w h. refused w (same k k) (test (w.0 k)) h;
    }
      where
        changed :
            (w : Memory) (j : K) (a b : Bool)
            → test (w.0 k) ≡ b
            → ((answer w k change a b).1.0 j ≡ w.0 j)
              ⊎ ((j ≡ k)
                  × (test (w.0 k) ≡ true)
                  × ((answer w k change a b).1.0 j ≡ some (change (or_key (w.0 k) (key k)))))
        changed w j false b e = inl refl
        changed w j true false e = inl refl
        changed w j true true e = elim (Bool-cases (same j k)) [
          | inl h ↦ inr (sound j k h, e, rw h)
          | inr h ↦ inl (rw h)
        ]

        written :
            (w : Memory) (a b : Bool)
            → same k k ≡ a
            → (answer w k change a b).0 ≡ ok true
            → (answer w k change a b).1.0 k ≡ some (change (or_key (w.0 k) (key k)))
        written w false b e h = cc
        written w true false e h = cc
        written w true true e h = rw e

        refused :
            (w : Memory) (a b : Bool)
            → (answer w k change a b).0 ≡ ok false
            → (b ≡ false) × ((answer w k change a b).1.0 k ≡ w.0 k)
        refused w false b h = cc
        refused w true false h = (refl, refl)
        refused w true true h = cc

    pub update-Checked :
        (k : K) (test : Option Fields → Bool) (change : Fields → Fields)
        → Checked memory_rows k test change (update k test change)
    update-Checked k test change = record { passed = λ w h. passed w (same k k) (test (w.0 k)) h }
      where
        passed : (w : Memory) (a b : Bool) → (answer w k change a b).0 ≡ ok true → b ≡ true
        passed w false b h = cc
        passed w true false h = cc
        passed w true true h = refl

    pub remove-Removes :
        (k : K) (test : Option Fields → Bool) → Removes memory_rows k (remove k test)
    remove-Removes k test = record { changed = λ w j. changed w j (test (w.0 k)) }
      where
        changed :
            (w : Memory) (j : K) (b : Bool)
            → ((removed w k b).1.0 j ≡ w.0 j) ⊎ ((j ≡ k) × ((removed w k b).1.0 j ≡ none))
        changed w j false = inl refl
        changed w j true = elim (Bool-cases (same j k)) [
          | inl h ↦ inr (sound j k h, rw h refl)
          | inr h ↦ inl (rw h)
        ]

-- Keys of two texts.
abbrev pub same_pair : String × String → String × String → Bool
same_pair (a, b) (c, d) = str_eq a c && str_eq b d

pub same_pair_eq : (j k : String × String) → same_pair j k ≡ true → j ≡ k
same_pair_eq (a, b) (c, d) h =
    let both : (str_eq a c ≡ true) × (str_eq b d ≡ true) = ground arith in
    let first = (eq_iff a c).0 both.0 in
    let second = (eq_iff b d).0 both.1 in λ i. (first i, second i)
