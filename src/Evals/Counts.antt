-- ===== src/Evals/Counts.antt =====
-- What a summary counts.
use mathlib.Core.List.{append-nil, append_assoc}
use autonomous_software_engi.Prelude.{
  if◌then◌else◌, length, length-append, select, All, All-if, All-map, ℕ, ◌+◌, String, ◌≡◌, refl,
  sym, ap, ◌∙◌, Bool, true, false, ◌&&◌, List, [], ◌∷◌, ◌++◌, map, arith, str_eq, eq_iff, eq_refl,
}
use autonomous_software_engi.Prelude.Sorting.{AllPairs}
use autonomous_software_engi.Contracts.Trace.{EvalResult}
use autonomous_software_engi.Evals.Report.{
  ConfigSummary, Group, same_group, add_to_groups, grouped, insert_group, sorted_groups, total,
  one_if_resolved, summary_of, summarize,
}

-- A group holds exactly the results of its suite and configuration, in their order.
abbrev pub HoldsOwn : List EvalResult → Group → Type 0
HoldsOwn results g =
    g.items ≡ select (λ (r : EvalResult). same_group r g.suite g.config_name) results

-- The numbers of the summary are those of exactly the results of its suite and configuration.
pub record Counts (results : List EvalResult) (s : ConfigSummary) : Type 0 where
  pub attempted :
      s.attempted ≡ length (select (λ (r : EvalResult). same_group r s.suite s.config_name) results)
  pub resolved :
      s.resolved
      ≡ total one_if_resolved
          (select (λ (r : EvalResult). same_group r s.suite s.config_name) results)
  pub cost :
      s.total_cost_usd
      ≡ total
          (λ r. r.cost_usd)
          (select (λ (r : EvalResult). same_group r s.suite s.config_name) results)

-- The number of results in groups.
abbrev in_groups : List Group → ℕ
in_groups [] = 0
in_groups (g ∷ rest) = length g.items + in_groups rest

abbrev pub attempts : List ConfigSummary → ℕ
attempts [] = 0
attempts (s ∷ rest) = s.attempted + attempts rest

add_to_groups-size :
    (item : EvalResult) (groups : List Group)
    → in_groups (add_to_groups item groups) ≡ in_groups groups + 1
unfolding add_to_groups
add_to_groups-size item [] = omega arith
add_to_groups-size item (g ∷ rest) =
    ground (arith, add_to_groups-size item rest, length-append g.items (item ∷ []))

grouped-size :
    (results : List EvalResult) (groups : List Group)
    → in_groups (grouped results groups) ≡ in_groups groups + length results
unfolding grouped
grouped-size [] groups = omega arith
grouped-size (item ∷ results) groups =
    omega (arith, grouped-size results (add_to_groups item groups), add_to_groups-size item groups)

insert_group-size :
    (g : Group) (groups : List Group)
    → in_groups (insert_group g groups) ≡ length g.items + in_groups groups
unfolding insert_group
insert_group-size g [] = omega arith
insert_group-size g (h ∷ rest) = ground (arith, insert_group-size g rest)

sorted_groups-size : (groups : List Group) → in_groups (sorted_groups groups) ≡ in_groups groups
unfolding sorted_groups
sorted_groups-size [] = refl
sorted_groups-size (g ∷ rest) =
    omega (arith, insert_group-size g (sorted_groups rest), sorted_groups-size rest)

insert_group-All :
    (P : Group → Type 0) (g : Group) (groups : List Group)
    → P g
    → All P groups
    → All P (insert_group g groups)
unfolding insert_group
insert_group-All P g [] p a = (p, tt)
insert_group-All P g (h ∷ rest) p a =
    All-if P _ (g ∷ h ∷ rest) (h ∷ insert_group g rest) (p, a)
      (a.0, insert_group-All P g rest p a.1)

sorted_groups-All :
    (P : Group → Type 0) (groups : List Group) → All P groups → All P (sorted_groups groups)
unfolding sorted_groups
sorted_groups-All P [] a = tt
sorted_groups-All P (g ∷ rest) a =
    insert_group-All P g (sorted_groups rest) a.0 (sorted_groups-All P rest a.1)

-- The group of a suite and a configuration.
abbrev key_is : String → String → Group → Bool
key_is suite config_name g = str_eq g.suite suite && str_eq g.config_name config_name

-- The items of the first group of a suite and a configuration.
abbrev items_of : String → String → List Group → List EvalResult
items_of suite config_name [] = []
items_of suite config_name (g ∷ rest) =
    let others = items_of suite config_name rest in
    if key_is suite config_name g then g.items else others

abbrev only_if : Bool → EvalResult → List EvalResult
only_if b item = if b then item ∷ [] else []

add_to_groups-items :
    (suite config_name : String) (item : EvalResult) (groups : List Group)
    → items_of suite config_name (add_to_groups item groups)
      ≡ items_of suite config_name groups ++ only_if (same_group item suite config_name) item
unfolding add_to_groups same_group
add_to_groups-items suite config_name item [] = refl
add_to_groups-items suite config_name item (g ∷ rest) = ground (
  arith,
  add_to_groups-items suite config_name item rest,
  append-nil (items_of suite config_name rest),
  append-nil g.items,
  eq_iff item.suite g.suite,
  eq_iff item.config_name g.config_name,
  eq_iff g.suite suite,
  eq_iff g.config_name config_name,
  eq_iff item.suite suite,
  eq_iff item.config_name config_name,
)

grouped-items :
    (suite config_name : String) (results : List EvalResult) (groups : List Group)
    → items_of suite config_name (grouped results groups)
      ≡ items_of suite config_name groups
        ++ select (λ (r : EvalResult). same_group r suite config_name) results
unfolding grouped
grouped-items suite config_name [] groups = sym (append-nil (items_of suite config_name groups))
grouped-items suite config_name (r ∷ results) groups =
    grouped-items suite config_name results (add_to_groups r groups)
    ∙ ap (λ xs. xs ++ select (λ (r : EvalResult). same_group r suite config_name) results)
        (add_to_groups-items suite config_name r groups)
    ∙ append_assoc (items_of suite config_name groups) (only_if (same_group r suite config_name) r)
        _
    ∙ ap (◌++◌ (items_of suite config_name groups))
        (only_if-select (same_group r suite config_name))
  where
    only_if-select :
        (b : Bool)
        → only_if b r ++ select (λ (x : EvalResult). same_group x suite config_name) results ≡ (
            if b
            then r ∷ select (λ (x : EvalResult). same_group x suite config_name) results
            else select (λ (x : EvalResult). same_group x suite config_name) results)
    only_if-select true = refl
    only_if-select false = refl

-- Two groups differ in the suite or the configuration.
abbrev Differ : Group → Group → Type 0
Differ g h = key_is g.suite g.config_name h ≡ false

add_to_groups-Differ :
    (g : Group) (item : EvalResult) (groups : List Group)
    → same_group item g.suite g.config_name ≡ false
    → All (Differ g) groups
    → All (Differ g) (add_to_groups item groups)
unfolding add_to_groups same_group
add_to_groups-Differ g item [] n a = (n, tt)
add_to_groups-Differ g item (h ∷ rest) n a =
    All-if (Differ g) (same_group item h.suite h.config_name)
      (record h { items = h.items ++ item ∷ [] } ∷ rest) (h ∷ add_to_groups item rest) a
      (a.0, add_to_groups-Differ g item rest n a.1)

add_to_groups-AllPairs :
    (item : EvalResult) (groups : List Group)
    → AllPairs Differ groups
    → AllPairs Differ (add_to_groups item groups)
unfolding add_to_groups
add_to_groups-AllPairs item [] p = (tt, tt)
add_to_groups-AllPairs item (h ∷ rest) p =
    by_test (same_group item h.suite h.config_name) refl (add_to_groups-AllPairs item rest p.1)
  where
    by_test :
        (b : Bool)
        → same_group item h.suite h.config_name ≡ b
        → AllPairs Differ (add_to_groups item rest)
        → AllPairs Differ (add_to_groups item (h ∷ rest))
    by_test true e ih = rw e p
    by_test false e ih = rw e (add_to_groups-Differ h item rest e p.0, ih)

grouped-AllPairs :
    (results : List EvalResult) (groups : List Group)
    → AllPairs Differ groups
    → AllPairs Differ (grouped results groups)
unfolding grouped
grouped-AllPairs [] groups p = p
grouped-AllPairs (r ∷ results) groups p =
    grouped-AllPairs results (add_to_groups r groups) (add_to_groups-AllPairs r groups p)

-- Groups that differ are found by their keys.
found_by_key :
    (groups : List Group)
    → AllPairs Differ groups
    → All (λ (g : Group). g.items ≡ items_of g.suite g.config_name groups) groups
found_by_key [] p = tt
found_by_key (h ∷ rest) p =
    (ground (arith, eq_refl h.suite, eq_refl h.config_name), tail rest p.0 (found_by_key rest p.1))
  where
    tail :
        (gs : List Group)
        → All (Differ h) gs
        → All (λ (g : Group). g.items ≡ items_of g.suite g.config_name rest) gs
        → All (λ (g : Group). g.items ≡ items_of g.suite g.config_name (h ∷ rest)) gs
    tail [] d a = tt
    tail (g ∷ gs) d a = (
      ground (
        arith,
        a.0,
        d.0,
        eq_iff h.suite g.suite,
        eq_iff h.config_name g.config_name,
        eq_iff g.suite h.suite,
        eq_iff g.config_name h.config_name,
      ),
      tail gs d.1 a.1,
    )

HoldsOwn-Counts :
    (results : List EvalResult) (g : Group) → HoldsOwn results g → Counts results (summary_of g)
unfolding summary_of
HoldsOwn-Counts results g h = record {
  attempted = ap length h;
  resolved = ap (total one_if_resolved) h;
  cost = ap (total (λ (item : EvalResult). item.cost_usd)) h;
}

All-summaries :
    (P : ConfigSummary → Type 0) (groups : List Group)
    → All (λ g. P (summary_of g)) groups
    → All P (map summary_of groups)
All-summaries P [] a = tt
All-summaries P (g ∷ rest) a = (a.0, All-summaries P rest a.1)

attempts-size : (groups : List Group) → attempts (map summary_of groups) ≡ in_groups groups
unfolding summary_of
attempts-size [] = refl
attempts-size (g ∷ rest) = omega (arith, attempts-size rest)

-- Each summary counts exactly the results of its suite and configuration, and all summaries together
-- count every result once.
pub summarize-Counts :
    (results : List EvalResult)
    → All (Counts results) (summarize results) × (attempts (summarize results) ≡ length results)
unfolding summarize
summarize-Counts results =
    let groups = grouped results [] in
    let own =
      All-map _ (HoldsOwn results) groups
        (λ g e. e ∙ grouped-items g.suite g.config_name results [])
        (found_by_key groups (grouped-AllPairs results [] tt)) in
    (
      All-summaries (Counts results) (sorted_groups groups) (
          All-map (HoldsOwn results) _ (sorted_groups groups) (HoldsOwn-Counts results)
            (sorted_groups-All (HoldsOwn results) groups own)),
      omega (
        arith,
        attempts-size (sorted_groups groups),
        sorted_groups-size groups,
        grouped-size results [],
      ),
    )
