-- ===== src/Dynsec/Acls.antt =====
-- The access control lists of `mqttctl/mqttctl-api/src/lib/server/dynsec/service.ts`: their order,
-- the choice of types, and `resolveEffectiveAcls`.
pub mod Effective
pub mod Resolved
use mqttctl.Prelude.{
  Text, codes, ◌==◌, ◌++◌, Bool, not, ◌&&◌, ◌||◌, Option, none, some, List, [], ◌∷◌, filter, any,
  sort, if◌then◌else◌,
}
use mqttctl.Prelude.Int.{ℤ, leb_ℤ, ltb_ℤ, eq_ℤ, max_ℤ}
use mqttctl.Prelude.Dict
use mqttctl.Prelude.Dict.{Dict}
use mqttctl.Dynsec.{DynsecAcl, dynsec_acl_types}

unfoldable pub sort_by_priority_desc : {A : Type 0} → (A → ℤ) → List A → List A
sort_by_priority_desc priority items =
    sort (λ left right. leb_ℤ (priority right) (priority left)) items

abbrev pub merge_priority : ℤ → ℤ → ℤ
merge_priority left right = max_ℤ left right

unfoldable pub acl_key : DynsecAcl → Text
acl_key acl = acl.acltype ++ codes ":" ++ acl.topic

-- `locale_le a b` is `a.localeCompare(b) <= 0`, over the host's tables.
module _ (locale_le : Text → Text → Bool) where
  unfoldable pub acl_before : DynsecAcl → DynsecAcl → Bool
  unfolding acl_key
  acl_before left right =
      if not (eq_ℤ right.priority left.priority)
      then ltb_ℤ right.priority left.priority
      else if (left.allow && not right.allow) || (not left.allow && right.allow)
      then not left.allow
      else locale_le (acl_key left) (acl_key right)

  unfoldable pub sort_acls_by_priority_and_effect : List DynsecAcl → List DynsecAcl
  unfolding acl_before
  sort_acls_by_priority_and_effect items = sort acl_before items

unfoldable pub normalize_acl_type_selection : List Text → List Text
normalize_acl_type_selection value =
    filter (λ acltype. any (λ selected. selected == acltype) value) dynsec_acl_types

-- One round of the loop of `resolveEffectiveAcls`.
unfoldable pub consider : Dict DynsecAcl → DynsecAcl → Dict DynsecAcl
unfolding acl_key
consider effective acl = elim (Dict.get (acl_key acl) effective) [
  | none ↦ Dict.set (acl_key acl) acl effective
  | some current ↦
      if ltb_ℤ current.priority acl.priority
      then Dict.set (acl_key acl) acl effective
      else if eq_ℤ acl.priority current.priority && (current.allow && not acl.allow)
      then Dict.set (acl_key acl) acl effective
      else effective
]

unfoldable pub collect_effective : List DynsecAcl → Dict DynsecAcl → Dict DynsecAcl
collect_effective [] effective = effective
collect_effective (acl ∷ acls) effective = collect_effective acls (consider effective acl)

module _ (locale_le : Text → Text → Bool) where
  unfoldable pub resolve_effective_acls : List DynsecAcl → List DynsecAcl
  unfolding sort_acls_by_priority_and_effect collect_effective consider
  resolve_effective_acls value =
      sort_acls_by_priority_and_effect locale_le (Dict.values (collect_effective value []))
