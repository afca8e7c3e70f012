-- ===== src/Tools/Edited.antt =====
-- What an edit that is answered with success has done.
use autonomous_software_engi.Prelude.{
  Bool-cases, Option-cases, String, ◌≡◌, sym, ap, ◌∙◌, subst, inl, inr, true, false, some, arith,
  str_eq, eq_iff,
}
use autonomous_software_engi.Prelude.Text.{universal_newlines}
use autonomous_software_engi.Prelude.Dict.{Dict, insert, lookup}
use autonomous_software_engi.Prelude.Replace.{
  Replaced, count_text, replace_first, replace_first-Replaced,
}
use autonomous_software_engi.Contracts.Types.{Value}
use autonomous_software_engi.Exec.{ok, Ensures}
use autonomous_software_engi.Exec.Rules.{Ensures-lift, Ensures-gets, Ensures-guard, Ensures-modify}
use autonomous_software_engi.Policy.{write_path}
use autonomous_software_engi.Tools.Files.{
  Bench, ToolServices, edited, edit_file, text_arg, is_file, exists_at,
}

-- The old files gained or changed one file at a writable path: without a search text a new one that
-- holds the replacement, and else one that holds the old text as it is read, with every line end as a
-- line feed, and the only occurrence of the search text in it replaced.
pub data Edit {W : Type 0} (services : ToolServices W) (search replace : String)
    (old new : Dict String) : Type 0 where
  created :
      (path : String)
      → (write_path services.policy path services.task_is_tests).allowed ≡ true
      → search ≡ ""
      → exists_at path old ≡ false
      → new ≡ insert path replace old
      → Edit services search replace old new
  changed :
      (path was now : String)
      → (write_path services.policy path services.task_is_tests).allowed ≡ true
      → lookup path old ≡ some was
      → count_text (universal_newlines was) search ≡ 1
      → Replaced search replace (universal_newlines was) now
      → new ≡ insert path now old
      → Edit services search replace old new

module _ {W : Type 0} (services : ToolServices W) where
  -- What the new text is.
  data NewText (path search replace : String) (old : Dict String) (text : String) : Type 0 where
    whole :
        search ≡ ""
        → exists_at path old ≡ false
        → text ≡ replace
        → NewText path search replace old text
    part :
        (was : String)
        → lookup path old ≡ some was
        → count_text (universal_newlines was) search ≡ 1
        → Replaced search replace (universal_newlines was) text
        → NewText path search replace old text

  -- The only occurrence in a file is replaced.
  edited-part :
      (path search replace text : String) (old : Dict String)
      → str_eq search "" ≡ false
      → edited services path search replace old ≡ ok text
      → NewText path search replace old text
  unfolding edited is_file
  edited-part path search replace text old h e = elim (Option-cases (lookup path old)) [
    | inl l ↦ absurd (ground arith)
    | inr (was, l) ↦
        let once : count_text (universal_newlines was) search ≡ 1 = ground arith in
        let now : text ≡ replace_first search replace (universal_newlines was) = ground arith in
        part was l once (
          subst (Replaced search replace (universal_newlines was)) (sym now) (
            replace_first-Replaced (universal_newlines was) search replace
              (λ z. omega (arith, z, once))))
  ]

  edited-NewText :
      (path search replace text : String) (old : Dict String)
      → edited services path search replace old ≡ ok text
      → NewText path search replace old text
  unfolding edited
  edited-NewText path search replace text old e = elim (Bool-cases (str_eq search "")) [
    | inl h ↦ whole ((eq_iff search "").0 h) (ground arith) (ground arith)
    | inr h ↦ edited-part path search replace text old h e
  ]

  -- From the files `old`, an edit that is answered with success is the creation of a file or the
  -- replacement of the only occurrence of the search text in one, at a path that the policy lets be
  -- written, and no other file changes. The file is replaced in as it is read, with every line end as
  -- a line feed, and written so.
  pub edit_file-Edit :
      (arguments : Dict Value) (old : Dict String)
      → Ensures
          (λ (b : Bench W). old ≡ b.files)
          (edit_file services arguments)
          (λ out b.
            Edit services
              (text_arg services "search" arguments)
              (text_arg services "replace" arguments)
              old
              b.files)
  unfolding edit_file
  edit_file-Edit arguments old = Ensures-lift _ _ λ path at_path. Ensures-guard _ _ _ λ allowed.
      Ensures-gets _ _ λ files. Ensures-lift _ _ λ text is_text.
        Ensures-lift _ _ λ parsed is_parsed. Ensures-guard _ _ _ λ free. Ensures-modify _ _ λ b h.
          written path text (insert path text b.files) (ground arith)
            (subst
              (λ o.
                NewText path (text_arg services "search" arguments)
                  (text_arg services "replace" arguments) o text)
              (sym (h.1 ∙ h.0)) (edited-NewText path _ _ text files is_text))
            (ap (insert path text) (sym h.1))
    where
      written :
          (path text : String) (new : Dict String)
          → (write_path services.policy path services.task_is_tests).allowed ≡ true
          → NewText path
              (text_arg services "search" arguments)
              (text_arg services "replace" arguments)
              old
              text
          → new ≡ insert path text old
          → Edit services
              (text_arg services "search" arguments)
              (text_arg services "replace" arguments)
              old
              new
      written path text new a (whole w x t) n =
          created path a w x (n ∙ ap (λ t. insert path t old) t)
      written path text new a (part was l c r) n = changed path was text a l c r n
