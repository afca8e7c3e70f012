-- ===== src/Policy/Paths.antt =====
-- What `PolicyEngine.changed_files` and `write_path` let through.
use autonomous_software_engi.Prelude.{
  length, select, All, ◌≤◌, String, ◌≡◌, refl, ◌↔◌, ◌⊎◌, Bool, true, false, List, [], ◌∷◌, ◌++◌,
  arith,
}
use autonomous_software_engi.Prelude.Text.{mem, sorted_set, insert_sorted}
use autonomous_software_engi.Prelude.Member.{Member, not_mem→not_Member, not_Member→not_mem}
use autonomous_software_engi.Contracts.Paths.{parts, looks_like_test}
use autonomous_software_engi.Policy.{
  Policy, changed_files, write_path, denied_parts, denied_reason, path_reasons,
}

-- No part of the path is a denied name.
abbrev pub IsClean : Policy → String → Type 0
IsClean p path = All (λ part. ¬ Member part p.denied_paths) (parts path)

pub record InScope (p : Policy) (paths : List String) : Type 0 where
  pub few : length paths ≤ p.max_changed_files
  pub clean : All (IsClean p) paths

insert_sorted-ne-nil : (s : String) (xs : List String) → insert_sorted s xs ≡ [] → ⊥
unfolding insert_sorted
insert_sorted-ne-nil s [] h = cc
insert_sorted-ne-nil s (x ∷ xs) h = ground arith

sorted_set-nil : (xs : List String) → sorted_set xs ≡ [] → xs ≡ []
unfolding sorted_set
sorted_set-nil [] h = refl
sorted_set-nil (x ∷ xs) h = absurd (insert_sorted-ne-nil x (sorted_set xs) h)

reason-nil : (v : String) (parts' : List String) → denied_reason v parts' ≡ [] → parts' ≡ []
unfolding denied_reason
reason-nil v [] h = refl
reason-nil v (x ∷ xs) h = cc

-- The selection of denied parts is empty exactly if no part is denied.
none_denied :
    (d xs : List String) → select (λ part. mem part d) xs ≡ [] → All (λ part. ¬ Member part d) xs
none_denied d [] h = tt
none_denied d (x ∷ xs) h = (not_mem→not_Member x d (ground arith), none_denied d xs (ground arith))

denied_none :
    (d xs : List String) → All (λ part. ¬ Member part d) xs → select (λ part. mem part d) xs ≡ []
denied_none d [] h = refl
denied_none d (x ∷ xs) h = ground (arith, not_Member→not_mem x d h.0, denied_none d xs h.1)

append-nil_left : (xs ys : List String) → xs ++ ys ≡ [] → (xs ≡ []) × (ys ≡ [])
append-nil_left [] ys h = (refl, h)
append-nil_left (x ∷ xs) ys h = cc

IsClean-of_reasons :
    (p : Policy) (paths : List String) → path_reasons p paths ≡ [] → All (IsClean p) paths
unfolding path_reasons denied_parts
IsClean-of_reasons p [] h = tt
IsClean-of_reasons p (v ∷ rest) h =
    let both = append-nil_left _ (path_reasons p rest) h in
    (
      none_denied p.denied_paths (parts v) (sorted_set-nil _ (reason-nil v _ both.0)),
      IsClean-of_reasons p rest both.1,
    )

reasons_of_clean :
    (p : Policy) (paths : List String) → All (IsClean p) paths → path_reasons p paths ≡ []
unfolding path_reasons denied_parts sorted_set
reasons_of_clean p [] h = refl
reasons_of_clean p (v ∷ rest) h =
    simp (denied_none p.denied_paths (parts v) h.0, reasons_of_clean p rest h.1)

-- A patch is in scope for the policy exactly if it has at most the maximal number of files and no
-- path of it has a denied part.
pub changed_files-allowed_iff :
    (p : Policy) (paths : List String) → ((changed_files p paths).allowed ≡ true) ↔ InScope p paths
unfolding changed_files
changed_files-allowed_iff p paths = (
  λ h. record { few = ground arith; clean = IsClean-of_reasons p paths (ground arith) },
  λ h. ground (arith, reasons_of_clean p paths h.clean, h.few),
)

-- A write is allowed exactly if its path is in scope alone, and it is no test file unless the task
-- is about tests.
pub write_path-allowed_iff :
    (p : Policy) (path : String) (task_is_tests : Bool)
    → ((write_path p path task_is_tests).allowed ≡ true)
      ↔ (InScope p (path ∷ []) × ((looks_like_test path ≡ false) ⊎ (task_is_tests ≡ true)))
unfolding write_path
write_path-allowed_iff p path t = (
  λ h. ((changed_files-allowed_iff p (path ∷ [])).0 (ground arith), ground arith),
  λ h. ground (arith, (changed_files-allowed_iff p (path ∷ [])).1 h.0, h.1),
)
