-- ===== src/Permissions/Grants.antt =====
-- What the table of roles grants.
use mqttctl.Prelude.{
  ◌≡◌, ◌≢◌, ◌↔◌, List, Option-cases, any, refl, Text, ◌==◌, true, false, none, some, map, inl, inr,
  ◌⊎◌, Bool-cases, arith,
}
use mqttctl.Permissions.{
  PrincipalRole, viewer, operator, security_admin, broker_admin, super_admin, mcp, Capability, read,
  operate, manage_broker, manage_security, manage_users, view_audit, manage_snapshots, manage_mcp,
  AuthenticatedUser, has_capability, includes_capability, capability_name, is_manage_mcp,
  default_mcp_capabilities,
}

manage_mcp-of_role :
    (u : AuthenticatedUser) (r : PrincipalRole)
    → u.role ≡ r
    → (has_capability (some u) manage_mcp ≡ true) ↔ (r ≡ super_admin)
unfolding has_capability includes_capability any ◌==◌
manage_mcp-of_role u viewer e = rw e (λ p. cc, λ p. cc)
manage_mcp-of_role u operator e = rw e (λ p. cc, λ p. cc)
manage_mcp-of_role u security_admin e = rw e (λ p. cc, λ p. cc)
manage_mcp-of_role u broker_admin e = rw e (λ p. cc, λ p. cc)
manage_mcp-of_role u super_admin e = rw e (λ p. refl, λ p. refl)
manage_mcp-of_role u mcp e = rw e (λ p. cc, λ p. cc)

-- The capabilities that MCP has where the user carries none: all but one.
default_iff :
    (c : Capability)
    → (includes_capability (map capability_name default_mcp_capabilities) c ≡ true)
      ↔ (is_manage_mcp c ≡ false)
unfolding includes_capability any ◌==◌
default_iff read = (λ p. refl, λ p. refl)
default_iff operate = (λ p. refl, λ p. refl)
default_iff manage_broker = (λ p. refl, λ p. refl)
default_iff manage_security = (λ p. refl, λ p. refl)
default_iff manage_users = (λ p. refl, λ p. refl)
default_iff view_audit = (λ p. refl, λ p. refl)
default_iff manage_snapshots = (λ p. refl, λ p. refl)
default_iff manage_mcp = (λ p. cc, λ p. cc)

is_manage_mcp_iff : (c : Capability) → (is_manage_mcp c ≡ true) ↔ (c ≡ manage_mcp)
is_manage_mcp_iff read = (λ p. cc, λ p. cc)
is_manage_mcp_iff operate = (λ p. cc, λ p. cc)
is_manage_mcp_iff manage_broker = (λ p. cc, λ p. cc)
is_manage_mcp_iff manage_security = (λ p. cc, λ p. cc)
is_manage_mcp_iff manage_users = (λ p. cc, λ p. cc)
is_manage_mcp_iff view_audit = (λ p. cc, λ p. cc)
is_manage_mcp_iff manage_snapshots = (λ p. cc, λ p. cc)
is_manage_mcp_iff manage_mcp = (λ p. refl, λ p. refl)

-- Whatever capabilities a user carries, the capability to manage MCP access is held exactly by those
-- whose role is `super_admin`.
pub manage_mcp-of_super_admin :
    (u : AuthenticatedUser) → (has_capability (some u) manage_mcp ≡ true) ↔ (u.role ≡ super_admin)
manage_mcp-of_super_admin u = manage_mcp-of_role u u.role refl

-- A user who acts for MCP holds a capability exactly if it is another than the management of MCP
-- access and it stands in the list the user carries, or the user carries no list.
pub has_capability-of_mcp :
    (u : AuthenticatedUser) (c : Capability)
    → u.role ≡ mcp
    → (has_capability (some u) c ≡ true) ↔ (
        (c ≢ manage_mcp)
        × ((u.capabilities ≡ none)
            ⊎ ((names : List Text) × (u.capabilities ≡ some names)
                × (includes_capability names c ≡ true))))
unfolding has_capability
has_capability-of_mcp u c e = elim (Option-cases u.capabilities) [
  | inl n ↦ rw (e, n) (ground (arith, is_manage_mcp_iff c, default_iff c))
  | inr (names, n) ↦
      rw (e, n)
        (elim (Bool-cases (is_manage_mcp c)) [
          | inl held ↦ rw held (λ p. cc, λ p. ground (arith, is_manage_mcp_iff c, p.0))
          | inr other ↦ rw other (
            λ p. (λ m. ground (arith, is_manage_mcp_iff c), inr (names, refl, p)),
            λ p. elim p.1 [ inl q ↦ cc | inr (x, q, r) ↦ cc ],
          )
        ])
]
