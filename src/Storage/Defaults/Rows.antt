-- ===== src/Storage/Defaults/Rows.antt =====
-- The rows of the table storage_providers: their identifiers and their defaults.
use backupeer.Prelude.{
  ℕ, ◌+◌, ◌≤◌, ◌≡◌, refl, ◌∙◌, subst, String, Bool, true, false, not, List, [], ◌∷◌, ◌++◌, ok, ◌==◌,
  any, arith, length, filter, eq_iff, inl, inr, ◌⊎◌, if◌then◌else◌,
}
use backupeer.Table.{update_where, delete_where}
use backupeer.Storage.{Provider}
use backupeer.Storage.Repo.{has_id, not_default, updated, clear_rows, insert_row, update_row}

abbrev pub defaults : List Provider → ℕ
defaults rows = length (filter Provider.is_default rows)

-- No two rows share their identifier.
abbrev pub HasUniqueIds : List Provider → Type 0
HasUniqueIds [] = Unit
HasUniqueIds (p ∷ ps) = (any (has_id p.id) ps ≡ false) × HasUniqueIds ps

-- Default rows whose identifier is another.
abbrev pub others : String → List Provider → ℕ
others id rows = defaults (filter (λ p. not (has_id id p)) rows)

module _ (id : String) (f : Provider → Provider) (keeps : (p : Provider) → (f p).id ≡ p.id)
    (p : Provider → Bool) where
  pub any-update_where :
      (rows : List Provider) → any (has_id id) (update_where p f rows) ≡ any (has_id id) rows
  any-update_where [] = refl
  any-update_where (r ∷ rows) = ground (arith, keeps r, any-update_where rows)

pub update_where-HasUniqueIds :
    (f : Provider → Provider) (keeps : (p : Provider) → (f p).id ≡ p.id) (p : Provider → Bool)
    (rows : List Provider)
    → HasUniqueIds rows
    → HasUniqueIds (update_where p f rows)
update_where-HasUniqueIds f keeps p [] h = tt
update_where-HasUniqueIds f keeps p (r ∷ rows) h = ground (
  arith,
  keeps r,
  any-update_where r.id f keeps p rows,
  any-update_where (f r).id f keeps p rows,
  update_where-HasUniqueIds f keeps p rows h.1,
)

pub others-clear_rows : (id : String) (rows : List Provider) → others id (clear_rows id rows) ≡ 0
others-clear_rows id [] = refl
others-clear_rows id (r ∷ rows) = ground (arith, others-clear_rows id rows)

pub others-update_where :
    (p : Provider) (rows : List Provider)
    → others p.id (update_where (has_id p.id) (updated p) rows) ≡ others p.id rows
others-update_where p [] = refl
others-update_where p (r ∷ rows) = ground (arith, others-update_where p rows)

pub defaults_absent :
    (id : String) (rows : List Provider)
    → any (has_id id) rows ≡ false
    → defaults rows ≡ others id rows
defaults_absent id [] h = refl
defaults_absent id (r ∷ rows) h = ground (arith, defaults_absent id rows)

pub defaults_bound :
    (id : String) (rows : List Provider) → HasUniqueIds rows → defaults rows ≤ others id rows + 1
defaults_bound id [] h = omega arith
defaults_bound id (r ∷ rows) h = ground (
  arith,
  eq_iff r.id id,
  defaults_bound id rows h.1,
  defaults_absent id rows,
  defaults_absent r.id rows h.0,
)

pub insert-HasUniqueIds :
    (p : Provider) (rows : List Provider)
    → any (has_id p.id) rows ≡ false
    → HasUniqueIds rows
    → HasUniqueIds (rows ++ (p ∷ []))
insert-HasUniqueIds p [] h u = (refl, tt)
insert-HasUniqueIds p (r ∷ rows) h u =
    ground
      (arith, any_last r.id rows, eq_iff r.id p.id, eq_iff p.id r.id, insert-HasUniqueIds p rows)
  where
    any_last :
        (id : String) (rows : List Provider)
        → any (has_id id) rows ≡ false
        → (p.id == id) ≡ false
        → any (has_id id) (rows ++ (p ∷ [])) ≡ false
    any_last id [] h k = rw k
    any_last id (r ∷ rows) h k = ground (arith, any_last id rows)

pub any-append_last :
    (id : String) (rows : List Provider) (p : Provider)
    → any (has_id id) (rows ++ (p ∷ [])) ≡ (if any (has_id id) rows then true else p.id == id)
any-append_last id [] p = ground arith
any-append_last id (r ∷ rows) p = ground (arith, any-append_last id rows p)

pub defaults-insert :
    (p : Provider) (rows : List Provider)
    → defaults (rows ++ (p ∷ [])) ≡ defaults rows + (if p.is_default then 1 else 0)
defaults-insert p [] = ground arith
defaults-insert p (r ∷ rows) = ground (arith, defaults-insert p rows)

pub defaults-update_where :
    (p : Provider) (rows : List Provider)
    → p.is_default ≡ false
    → defaults (update_where (has_id p.id) (updated p) rows) ≤ defaults rows
defaults-update_where p [] h = omega arith
defaults-update_where p (r ∷ rows) h = ground (arith, defaults-update_where p rows h)

pub any-delete_where :
    (id gone : String) (rows : List Provider)
    → any (has_id id) rows ≡ false
    → any (has_id id) (delete_where (has_id gone) rows) ≡ false
any-delete_where id gone [] h = refl
any-delete_where id gone (r ∷ rows) h = ground (arith, any-delete_where id gone rows)

pub delete-HasUniqueIds :
    (gone : String) (rows : List Provider)
    → HasUniqueIds rows
    → HasUniqueIds (delete_where (has_id gone) rows)
delete-HasUniqueIds gone [] h = tt
delete-HasUniqueIds gone (r ∷ rows) h =
    ground (arith, delete-HasUniqueIds gone rows h.1, any-delete_where r.id gone rows h.0)

pub defaults-delete_where :
    (gone : String) (rows : List Provider)
    → defaults (delete_where (has_id gone) rows) ≤ defaults rows
defaults-delete_where gone [] = omega arith
defaults-delete_where gone (r ∷ rows) = ground (arith, defaults-delete_where gone rows)

-- The table: distinct identifiers, none of them empty, and at most one default.
pub record IsConsistent (rows : List Provider) : Type 0 where
  pub unique : HasUniqueIds rows
  pub named : any (has_id "") rows ≡ false
  pub one_default : defaults rows ≤ 1

-- A consistent table in which at most the row of `id` is the default.
pub record IsCleared (id : String) (rows : List Provider) : Type 0 where
  pub consistent : IsConsistent rows
  pub only : others id rows ≡ 0

pub clear_rows-IsCleared :
    (id : String) (rows : List Provider) → IsConsistent rows → IsCleared id (clear_rows id rows)
clear_rows-IsCleared id rows h =
    let u =
      update_where-HasUniqueIds not_default (λ p. refl) (λ p. not (has_id id p)) rows h.unique in
    let none_else = others-clear_rows id rows in
    record {
      consistent = record {
        unique = u;
        named = any-update_where "" not_default (λ p. refl) (λ p. not (has_id id p)) rows ∙ h.named;
        one_default = omega (arith, defaults_bound id (clear_rows id rows) u);
      };
      only = none_else;
    }

pub insert_row-IsConsistent :
    (p : Provider) (rows after : List Provider)
    → IsConsistent rows
    → (p.id == "") ≡ false
    → defaults rows + (if p.is_default then 1 else 0) ≤ 1
    → insert_row p rows ≡ ok after
    → IsConsistent after
insert_row-IsConsistent p rows after h named few e =
    let inverted : (any (has_id p.id) rows ≡ false) × (rows ++ (p ∷ []) ≡ after) = ground arith in
    subst IsConsistent inverted.1 (record {
      unique = insert-HasUniqueIds p rows inverted.0 h.unique;
      named = ground (arith, any-append_last "" rows p);
      one_default = omega (arith, defaults-insert p rows);
    })

pub update_row-IsConsistent :
    (p : Provider) (rows after : List Provider)
    → IsConsistent rows
    → (p.is_default ≡ false) ⊎ (others p.id rows ≡ 0)
    → update_row p rows ≡ ok after
    → IsConsistent after
update_row-IsConsistent p rows after h few e =
    let changed = update_where (has_id p.id) (updated p) rows in
    let inverted : changed ≡ after = ground arith in
    let u = update_where-HasUniqueIds (updated p) (λ r. refl) (has_id p.id) rows h.unique in
    subst IsConsistent inverted (record {
      unique = u;
      named = any-update_where "" (updated p) (λ r. refl) (has_id p.id) rows ∙ h.named;
      one_default = elim few [
        | inl off ↦ omega (arith, defaults-update_where p rows off)
        | inr only ↦ omega (arith, defaults_bound p.id changed u, others-update_where p rows)
      ];
    })
