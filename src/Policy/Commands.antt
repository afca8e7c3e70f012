-- ===== src/Policy/Commands.antt =====
-- What `PolicyEngine.command` lets through.
use autonomous_software_engi.Prelude.{
  Bool-cases, String, ◌≡◌, refl, ◌↔◌, inl, inr, true, false, List, [], ◌∷◌, arith, str_eq, eq_iff,
}
use autonomous_software_engi.Prelude.Member.{
  Member, mem→Member, Member→mem, not_mem→not_Member, not_Member→not_mem,
}
use autonomous_software_engi.Prelude.Text.{mem, split}
use autonomous_software_engi.Contracts.Paths.{path_name, segments}
use autonomous_software_engi.Policy.{Policy, command, shell_tokens, git_reasons}

-- The first argument is not a denied subcommand.
abbrev pub AvoidsDenied : Policy → List String → Type 0
AvoidsDenied p [] = Unit
AvoidsDenied p (subcommand ∷ rest) = ¬ Member subcommand p.denied_git_subcommands

-- An argument list that may run: an allowlisted program that is no shell, and for git no denied
-- subcommand in the first place.
pub record Permitted (p : Policy) (program : String) (args : List String) : Type 0 where
  pub allowlisted : Member (path_name program) p.allowed_commands
  pub no_shell : ¬ Member (path_name program) shell_tokens
  pub git_ok : path_name program ≡ "git" → AvoidsDenied p args

git_ok_of_reasons :
    (p : Policy) (e : String) (args : List String)
    → git_reasons p e args ≡ []
    → e ≡ "git"
    → AvoidsDenied p args
unfolding git_reasons
git_ok_of_reasons p e [] h g = tt
git_ok_of_reasons p e (s ∷ rest) h g =
    not_mem→not_Member s p.denied_git_subcommands (ground (arith, eq_iff e "git"))

reasons_of_git_ok :
    (p : Policy) (e : String) (args : List String)
    → (e ≡ "git" → AvoidsDenied p args)
    → git_reasons p e args ≡ []
unfolding git_reasons
reasons_of_git_ok p e [] h = refl
reasons_of_git_ok p e (s ∷ rest) h = elim (Bool-cases (str_eq e "git")) [
  | inl g ↦ ground (arith, not_Member→not_mem s p.denied_git_subcommands (h ((eq_iff e "git").0 g)))
  | inr n ↦ ground arith
]

-- `command` allows exactly the permitted argument lists, and nothing when the list is empty.
pub command-allowed_iff :
    (p : Policy) (program : String) (args : List String)
    → ((command p (program ∷ args)).allowed ≡ true) ↔ Permitted p program args
unfolding command git_reasons
command-allowed_iff p program args = (
  λ h. record {
    allowlisted = mem→Member (path_name program) p.allowed_commands (ground arith);
    no_shell = not_mem→not_Member (path_name program) shell_tokens (ground arith);
    git_ok = git_ok_of_reasons p (path_name program) args (ground arith);
  },
  λ h. ground (
    arith,
    Member→mem (path_name program) p.allowed_commands h.allowlisted,
    not_Member→not_mem (path_name program) shell_tokens h.no_shell,
    reasons_of_git_ok p (path_name program) args h.git_ok,
  ),
)

-- A shell is denied by every policy, also one that puts it on the allowlist.
pub command-denies_shell :
    (p : Policy) (program : String) (args : List String)
    → Member (path_name program) shell_tokens
    → (command p (program ∷ args)).allowed ≡ false
command-denies_shell p program args m = elim (Bool-cases (command p (program ∷ args)).allowed) [
  | inl yes' ↦ absurd (((command-allowed_iff p program args).0 yes').no_shell m)
  | inr denied ↦ denied
]

-- The git guard reads only the first argument: under a policy that allowlists git, every
-- subcommand, a denied one too, is let through behind an argument that is not itself denied, as in
-- `git --no-pager push`.
pub command-git_option :
    (p : Policy) (option subcommand : String) (rest : List String)
    → Member "git" p.allowed_commands
    → ¬ Member option p.denied_git_subcommands
    → (command p ("git" ∷ option ∷ subcommand ∷ rest)).allowed ≡ true
unfolding path_name segments split mem
command-git_option p option subcommand rest git_allowed harmless =
    (command-allowed_iff p "git" (option ∷ subcommand ∷ rest)).1 (record {
      allowlisted = git_allowed;
      no_shell = not_mem→not_Member "git" shell_tokens refl;
      git_ok = λ _. harmless;
    })
