-- ===== src/Dynsec/Acls/Effective.antt =====
-- What `resolveEffectiveAcls` decides for each type and topic.
use mathlib.Core.List.{Memᴰ}
use mathlib.Core.List.Memᴰ
use mqttctl.Prelude.{
  ◌≡◌, ◌≢◌, ◌⊎◌, ◌∙◌, refl, sym, ap, subst, Text, ◌==◌, eq_iff, Bool, true, false, not, ◌&&◌, ◌||◌,
  Option, none, some, List, [], ◌∷◌, arith, inl, inr, Bool-cases, same_of_some, if◌then◌else◌,
}
use mqttctl.Prelude.Int.{ltb_ℤ, eq_ℤ}
use mqttctl.Prelude.Dict.{Dict, get, get-set}
use mqttctl.Dynsec.{DynsecAcl}
use mqttctl.Dynsec.Acls.{acl_key, consider, collect_effective}

-- `a` is no weaker than `b`: of a higher priority, or of the same and not an `allow` against a
-- `deny`.
unfoldable pub outranks : DynsecAcl → DynsecAcl → Bool
outranks a b =
    ltb_ℤ b.priority a.priority || (eq_ℤ b.priority a.priority && (b.allow || not a.allow))

outranks_refl : (a : DynsecAcl) → outranks a a ≡ true
unfolding outranks
outranks_refl a = ground arith

outranks_trans :
    (a b c : DynsecAcl) → outranks a b ≡ true → outranks b c ≡ true → outranks a c ≡ true
unfolding outranks
outranks_trans a b c h k = ground arith

-- The ACL that is kept when `acl` meets `current`.
unfoldable pub prevail : Option DynsecAcl → DynsecAcl → DynsecAcl
prevail none acl = acl
prevail (some current) acl = if outranks current acl then current else acl

-- The ACL kept for a key.
unfoldable pub decide : Text → Option DynsecAcl → List DynsecAcl → Option DynsecAcl
unfolding prevail
decide key kept [] = kept
decide key kept (acl ∷ acls) =
    decide key (if acl_key acl == key then some (prevail kept acl) else kept) acls

get-consider :
    (key : Text) (acl : DynsecAcl) (m : Dict DynsecAcl)
    → get key (consider m acl)
      ≡ (if acl_key acl == key then some (prevail (get key m) acl) else get key m)
unfolding consider prevail outranks
get-consider key acl m = ground (arith, get-set (acl_key acl) key acl m, eq_iff (acl_key acl) key)

pub get-collect_effective :
    (key : Text) (acls : List DynsecAcl) (m : Dict DynsecAcl)
    → get key (collect_effective acls m) ≡ decide key (get key m) acls
unfolding collect_effective decide
get-collect_effective key [] m = refl
get-collect_effective key (acl ∷ acls) m =
    get-collect_effective key acls (consider m acl)
    ∙ ap (λ kept. decide key kept acls) (get-consider key acl m)

outranks_total : (a b : DynsecAcl) → outranks a b ≡ false → outranks b a ≡ true
unfolding outranks
outranks_total a b h = ground arith

-- What stands in for a key: `w` is listed or was kept, and yields to nothing seen.
pub record Stands (key : Text) (kept : Option DynsecAcl) (acls : List DynsecAcl) (w : DynsecAcl)
    : Type 0 where
  pub from : (kept ≡ some w) ⊎ (Memᴰ w acls × (acl_key w ≡ key))
  pub over_kept : (a : DynsecAcl) → kept ≡ some a → outranks w a ≡ true
  pub over_acls : (b : DynsecAcl) → Memᴰ b acls → acl_key b ≡ key → outranks w b ≡ true

prevail-over_acl :
    (kept : Option DynsecAcl) (acl : DynsecAcl) → outranks (prevail kept acl) acl ≡ true
unfolding prevail
prevail-over_acl none acl = outranks_refl acl
prevail-over_acl (some c) acl = ground (arith, outranks_refl acl)

prevail-over_kept :
    (kept : Option DynsecAcl) (acl a : DynsecAcl)
    → kept ≡ some a
    → outranks (prevail kept acl) a ≡ true
unfolding prevail
prevail-over_kept none acl a h = cc
prevail-over_kept (some c) acl a h = ground (arith, outranks_refl a, outranks_total c acl)

prevail-from :
    (kept : Option DynsecAcl) (acl : DynsecAcl)
    → (kept ≡ some (prevail kept acl)) ⊎ (prevail kept acl ≡ acl)
unfolding prevail
prevail-from none acl = inr refl
prevail-from (some c) acl = ground arith

Stands-hit :
    (key : Text) (kept : Option DynsecAcl) (acl : DynsecAcl) (acls : List DynsecAcl) (w : DynsecAcl)
    → acl_key acl ≡ key
    → Stands key (some (prevail kept acl)) acls w
    → Stands key kept (acl ∷ acls) w
Stands-hit key kept acl acls w hit s =
    let above = s.over_kept (prevail kept acl) refl in
    record {
      from = elim s.from [
        | inl e ↦
            let same : prevail kept acl ≡ w = same_of_some e in
            elim (prevail-from kept acl) [
              | inl k ↦ inl (k ∙ e)
              | inr k ↦ inr (Memᴰ.head (sym same ∙ k), ap acl_key (sym same ∙ k) ∙ hit)
            ]
        | inr m ↦ inr (Memᴰ.tail m.0, m.1)
      ];
      over_kept =
          λ a e. outranks_trans w (prevail kept acl) a above (prevail-over_kept kept acl a e);
      over_acls = λ b m e. elim (Memᴰ.cases_cons m) [
        | inl p ↦
            outranks_trans w (prevail kept acl) b above (
              subst (λ c. outranks (prevail kept acl) c ≡ true) (sym p) (prevail-over_acl kept acl))
        | inr n ↦ s.over_acls b n e
      ];
    }

Stands-miss :
    (key : Text) (kept : Option DynsecAcl) (acl : DynsecAcl) (acls : List DynsecAcl) (w : DynsecAcl)
    → (acl_key acl == key) ≡ false
    → Stands key kept acls w
    → Stands key kept (acl ∷ acls) w
Stands-miss key kept acl acls w miss s = record {
  from = elim s.from [ inl e ↦ inl e | inr m ↦ inr (Memᴰ.tail m.0, m.1) ];
  over_kept = s.over_kept;
  over_acls = λ b m e. elim (Memᴰ.cases_cons m) [
    | inl p ↦ cc (miss, (eq_iff (acl_key acl) key).1 (ap acl_key (sym p) ∙ e))
    | inr n ↦ s.over_acls b n e
  ];
}

pub decide-Stands :
    (key : Text) (kept : Option DynsecAcl) (acls : List DynsecAcl) (w : DynsecAcl)
    → decide key kept acls ≡ some w
    → Stands key kept acls w
unfolding decide
decide-Stands key kept [] w h = record {
  from = inl h;
  over_kept = λ a e. subst (λ c. outranks c a ≡ true) (same_of_some (sym e ∙ h)) (outranks_refl a);
  over_acls = λ b m e. absurd (Memᴰ.not-nil m);
}
decide-Stands key kept (acl ∷ acls) w h = elim (Bool-cases (acl_key acl == key)) [
  | inl hit ↦
      Stands-hit key kept acl acls w ((eq_iff (acl_key acl) key).0 hit)
        (decide-Stands key (some (prevail kept acl)) acls w (rw hit at h))
  | inr miss ↦ Stands-miss key kept acl acls w miss (decide-Stands key kept acls w (rw miss at h))
]

decide-some :
    (key : Text) (kept : DynsecAcl) (acls : List DynsecAcl) → decide key (some kept) acls ≢ none
unfolding decide
decide-some key kept [] h = cc
decide-some key kept (acl ∷ acls) h = elim (Bool-cases (acl_key acl == key)) [
  | inl hit ↦ decide-some key (prevail (some kept) acl) acls (rw hit at h)
  | inr miss ↦ decide-some key kept acls (rw miss at h)
]

pub decide-none :
    (key : Text) (kept : Option DynsecAcl) (acls : List DynsecAcl)
    → decide key kept acls ≡ none
    → (b : DynsecAcl) → Memᴰ b acls
    → (acl_key b == key) ≡ false
unfolding decide
decide-none key kept [] h b m = absurd (Memᴰ.not-nil m)
decide-none key kept (acl ∷ acls) h b m = elim (Bool-cases (acl_key acl == key)) [
  | inl hit ↦ absurd (decide-some key (prevail kept acl) acls (rw hit at h))
  | inr miss ↦ elim (Memᴰ.cases_cons m) [
    | inl p ↦ ap (λ c. acl_key c == key) p ∙ miss
    | inr n ↦ decide-none key kept acls (rw miss at h) b n
  ]
]
