-- ===== src/Dynsec/State/Memberships.antt =====
-- The two sides of a membership in the normalised state.
use mathlib.Core.List.{Memᴰ}
use mathlib.Core.List.Memᴰ
use mqttctl.Prelude.{
  ◌≡◌, ◌∙◌, refl, sym, ap, subst, Text, ◌==◌, Bool, ◌||◌, Option, none, some, List, [], ◌∷◌, map,
  any, or_else, arith, inl, inr, same_of_some,
}
use mqttctl.Prelude.Int.{ℤ}
use mqttctl.Prelude.Dict.{Dict, get}
use mqttctl.Prelude.Keyed.{find_key, IsDistinct}
use mqttctl.Dynsec.{DynsecClient, DynsecGroup, DynsecRole, DynsecState}
use mqttctl.Prelude.Json.{Json, null}
use mqttctl.Dynsec.Parse.{Host}
use mqttctl.Dynsec.Acls.{sort_by_priority_desc}
use mqttctl.Dynsec.State.{
  map_of_refs, merge_memberships, merge_client, merge_group, group_memberships_by_client,
  client_memberships_by_group, group_refs, client_refs, normalize_state, assemble, normalized,
  parsed_clients, parsed_groups, parsed_roles,
}
use mqttctl.Dynsec.State.Index.{
  holds, indexed, holds-map_of_refs, holds-merge_memberships, any-sort, any-map, told-sole,
  indexed-told,
}

-- Whether the client lists the group, and whether the group lists the client.
abbrev pub lists_group : DynsecClient → Text → Bool
lists_group client groupname = any (λ r. r.groupname == groupname) client.groups

abbrev pub lists_client : DynsecGroup → Text → Bool
lists_client group username = any (λ r. r.username == username) group.clients

holds-merged :
    (k : Text) (ms : Dict ℤ) (refs : List (Text × ℤ))
    → holds k (merge_memberships ms (map_of_refs refs [])) ≡ holds k ms || holds k refs
unfolding any
holds-merged k ms refs =
    ground (arith, holds-merge_memberships k ms (map_of_refs refs []), holds-map_of_refs k refs [])

lists_group-merge_client :
    (index : Dict (Dict ℤ)) (client : DynsecClient) (k : Text)
    → lists_group (merge_client index client) k
      ≡ indexed client.username k index || lists_group client k
unfolding merge_client sort_by_priority_desc
lists_group-merge_client index client k =
    any-sort (λ r. r.groupname == k) _ _
    ∙ any-map (λ r. r.groupname == k) _ _
    ∙ holds-merged k (or_else (get client.username index) []) (group_refs client)
    ∙ ap (λ b. indexed client.username k index || b)
        (any-map (λ e. e.0 == k) (λ r. (r.groupname, r.priority)) client.groups)

lists_client-merge_group :
    (index : Dict (Dict ℤ)) (group : DynsecGroup) (k : Text)
    → lists_client (merge_group index group) k
      ≡ indexed group.groupname k index || lists_client group k
unfolding merge_group sort_by_priority_desc
lists_client-merge_group index group k =
    any-sort (λ r. r.username == k) _ _
    ∙ any-map (λ r. r.username == k) _ _
    ∙ holds-merged k (or_else (get group.groupname index) []) (client_refs group)
    ∙ ap (λ b. indexed group.groupname k index || b)
        (any-map (λ e. e.0 == k) (λ r. (r.username, r.priority)) group.clients)

module _ {A : Type 0} (name : A → Text) (f : A → A) (keeps : (a : A) → name (f a) ≡ name a) where
  absent-of_map :
      (k : Text) (xs : List A) → find_key name k (map f xs) ≡ none → find_key name k xs ≡ none
  unfolding find_key
  absent-of_map k [] h = refl
  absent-of_map k (x ∷ xs) h = ground (arith, absent-of_map k xs, keeps x)

  IsDistinct-of_map : (xs : List A) → IsDistinct name (map f xs) → IsDistinct name xs
  IsDistinct-of_map [] d = tt
  IsDistinct-of_map (x ∷ xs) d = (
    absent-of_map (name x) xs (subst (λ k. find_key name k (map f xs) ≡ none) (keeps x) d.0),
    IsDistinct-of_map xs d.1,
  )

mem-of_map :
    {A B : Type 0} (f : A → B) (b : B) (xs : List A)
    → Memᴰ b (map f xs)
    → (a : A) × Memᴰ a xs × (b ≡ f a)
mem-of_map f b [] m = absurd (Memᴰ.not-nil m)
mem-of_map f b (x ∷ xs) m = elim (Memᴰ.cases_cons m) [
  | inl p ↦ (x, Memᴰ.head refl, p)
  | inr n ↦ let (a, k, e) = mem-of_map f b xs n in (a, Memᴰ.tail k, e)
]

module _ (clients : List DynsecClient) (groups : List DynsecGroup) where
  -- Both sides of the merged state list a membership exactly when one side listed it.
  pub merged_agree :
      (c : DynsecClient) (g : DynsecGroup)
      → IsDistinct (λ c. c.username) clients
      → IsDistinct (λ g. g.groupname) groups
      → Memᴰ c clients
      → Memᴰ g groups
      → (lists_group (merge_client (group_memberships_by_client groups) c) g.groupname
          ≡ lists_client g c.username || lists_group c g.groupname)
        × (lists_client (merge_group (client_memberships_by_group clients) g) c.username
            ≡ lists_group c g.groupname || lists_client g c.username)
  unfolding group_memberships_by_client client_memberships_by_group
  merged_agree c g dc dg mc mg = (
    lists_group-merge_client _ c g.groupname
        ∙ ap (λ b. b || lists_group c g.groupname)
            (indexed-told (λ g. g.groupname) client_refs c.username g.groupname groups
              ∙ told-sole (λ g. g.groupname) client_refs c.username g groups dg mg
              ∙ any-map (λ e. e.0 == c.username) (λ r. (r.username, r.priority)) g.clients),
    lists_client-merge_group _ g c.username
        ∙ ap (λ b. b || lists_client g c.username)
            (indexed-told (λ c. c.username) group_refs g.groupname c.username clients
              ∙ told-sole (λ c. c.username) group_refs g.groupname c clients dc mc
              ∙ any-map (λ e. e.0 == g.groupname) (λ r. (r.groupname, r.priority)) c.groups),
  )

abbrev pub IsAssembled : Json → Text → DynsecState → Type 0
IsAssembled raw now s =
    (clients : List DynsecClient) × (groups : List DynsecGroup) × (roles : List DynsecRole) × (s
      ≡ assemble raw now clients groups roles)

normalized-IsAssembled :
    (raw : Json) (now : Text) (clients : Option (List DynsecClient))
    (groups : Option (List DynsecGroup)) (roles : Option (List DynsecRole)) (s : DynsecState)
    → normalized raw now clients groups roles ≡ some s
    → IsAssembled raw now s
normalized-IsAssembled raw now none groups roles s h = cc
normalized-IsAssembled raw now (some c) none roles s h = cc
normalized-IsAssembled raw now (some c) (some g) none s h = cc
normalized-IsAssembled raw now (some c) (some g) (some r) s h = (c, g, r, sym (same_of_some h))

pub normalize_state-IsAssembled :
    (host : Host) (now : Text) (raw : Json) (s : DynsecState)
    → normalize_state host now raw ≡ some s
    → IsAssembled raw now s
unfolding normalize_state
normalize_state-IsAssembled host now null s h = cc
normalize_state-IsAssembled host now raw s h =
    normalized-IsAssembled raw now (parsed_clients host raw) (parsed_groups host raw)
      (parsed_roles host raw) s h

-- `s` without what the two sides of a membership do not read.
record Agrees (s : DynsecState) : Type 0 where
  pub at :
      (c : DynsecClient) (g : DynsecGroup)
      → IsDistinct (λ c. c.username) s.clients
      → IsDistinct (λ g. g.groupname) s.groups
      → Memᴰ c s.clients
      → Memᴰ g s.groups
      → lists_group c g.groupname ≡ lists_client g c.username

or_comm : (a b : Bool) → a || b ≡ b || a
or_comm a b = ground arith

assemble-Agrees :
    (raw : Json) (now : Text) (clients : List DynsecClient) (groups : List DynsecGroup)
    (roles : List DynsecRole)
    → Agrees (assemble raw now clients groups roles)
unfolding merge_client merge_group
assemble-Agrees raw now clients groups roles = record {
  at = λ c g dc dg mc mg.
      let merge_c = merge_client (group_memberships_by_client groups) in
      let merge_g = merge_group (client_memberships_by_group clients) in
      let (c0, nc, ec) = mem-of_map merge_c c clients mc in
      let (g0, ng, eg) = mem-of_map merge_g g groups mg in
      let distinct_c = IsDistinct-of_map (λ c. c.username) merge_c (λ c. refl) clients dc in
      let distinct_g = IsDistinct-of_map (λ g. g.groupname) merge_g (λ g. refl) groups dg in
      let (left, right) = merged_agree clients groups c0 g0 distinct_c distinct_g nc ng in
      let here =
        left ∙ or_comm (lists_client g0 c0.username) (lists_group c0 g0.groupname) ∙ sym right in
      subst (λ c. lists_group c g.groupname ≡ lists_client g c.username) (sym ec)
        (subst (λ g. lists_group (merge_c c0) g.groupname ≡ lists_client g c0.username) (sym eg)
          here);
}

-- In the normalised state, where no two clients have a name and no two groups, a client lists a
-- group exactly when the group lists the client.
pub normalize_state-agrees :
    (host : Host) (now : Text) (raw : Json) (s : DynsecState) (c : DynsecClient) (g : DynsecGroup)
    → normalize_state host now raw ≡ some s
    → IsDistinct (λ c. c.username) s.clients
    → IsDistinct (λ g. g.groupname) s.groups
    → Memᴰ c s.clients
    → Memᴰ g s.groups
    → lists_group c g.groupname ≡ lists_client g c.username
normalize_state-agrees host now raw s c g e =
    let (clients, groups, roles, made) = normalize_state-IsAssembled host now raw s e in
    (subst Agrees (sym made) (assemble-Agrees raw now clients groups roles)).at c g
