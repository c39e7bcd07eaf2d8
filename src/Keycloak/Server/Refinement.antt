-- ===== src/Keycloak/Server/Refinement.antt =====
-- `EnsureRealm` against such a server is an update or an insertion of the realm.
use inari_operator.Base.{
  ◌≡◌, Option-cases, refl, ap, sym, ◌∙◌, Bool, true, false, ◌&&◌, Option, none, some, ◌==◌, ==_iff,
  Bool-cases, inl, inr, arith, subst,
}
use inari_operator.Text.{Str, str_eq, is_empty}
use inari_operator.Cluster.Errors.{ok}
use inari_operator.Cluster.Env.{Env, Trace, put, RealmRepresentation, get}
use inari_operator.Cluster.Exec.{World, attempt, ◌>>=◌}
use inari_operator.Keycloak.Token.{Client}
use inari_operator.Keycloak.Transport.{no_output, request}
use inari_operator.Keycloak.Admin.{
  realm_path, realm_output, ensure_realm, after_get_realm, update_realm, create_realm, bool_beq,
}
use inari_operator.Keycloak.Admin.Laws.{bool_beq_iff}
use inari_operator.Keycloak.Server.{IsServer, merged}
use inari_operator.Keycloak.Server.Realms.{get_found, get_missing, put_done, post_done, merged_same}

-- The specification: whether the realm is new, and what it is then.
unfoldable pub upsert :
    RealmRepresentation → Option RealmRepresentation → Bool × RealmRepresentation
upsert rep none = (true, rep)
upsert rep (some existing) = (false, merged existing rep)

module _ (env : Env) (c : Client) (realm : Trace → Option RealmRepresentation)
    (accepts : Trace → Str → Bool) (rep : RealmRepresentation)
    (server : IsServer env c realm accepts rep.realm) where
  abbrev Upserted : Option RealmRepresentation → World → Type 0
  Upserted before w =
      (v : World) × (ensure_realm env c rep w ≡ (ok (upsert rep before).0, v))
      × (realm v.trace ≡ some (upsert rep before).1)

  inserted : (w : World) → realm w.trace ≡ none → Upserted none w
  unfolding ensure_realm after_get_realm create_realm upsert attempt ◌>>=◌
  inserted w absent =
      let (u, missed, still) = get_missing env c realm accepts rep.realm server w absent in
      let (v, made, there) = post_done env c realm accepts rep.realm server rep u refl still in
      (v, rw (missed, made) refl, there)

  is_same : RealmRepresentation → Bool
  unfolding update_realm
  is_same existing =
      existing.display_name == rep.display_name && bool_beq existing.enabled rep.enabled

  kept :
      (existing : RealmRepresentation) (w u : World)
      → request env c get (realm_path rep.realm) none (realm_output env c) w ≡ (ok existing, u)
      → realm u.trace ≡ some existing
      → is_same existing ≡ true
      → Upserted (some existing) w
  unfolding ensure_realm after_get_realm update_realm upsert attempt is_same ◌>>=◌
  kept existing w u found there same = (
    u,
    rw (found, same) refl,
    there
        ∙ ap some (
            merged_same existing rep (ground (arith, ==_iff existing.display_name rep.display_name))
              (ground (arith, bool_beq_iff existing.enabled rep.enabled))),
  )

  changed :
      (existing : RealmRepresentation) (w u : World)
      → request env c get (realm_path rep.realm) none (realm_output env c) w ≡ (ok existing, u)
      → realm u.trace ≡ some existing
      → is_same existing ≡ false
      → Upserted (some existing) w
  unfolding ensure_realm after_get_realm update_realm upsert attempt is_same ◌>>=◌
  changed existing w u found there differs =
      let rep' = record rep { realm = existing.realm } in
      let (v, sent_it, after) =
        put_done env c realm accepts rep.realm server existing rep' u there in
      let at_path =
        subst
          (λ p.
            request env c put (realm_path p) (some (env.json.encode_realm rep')) no_output u
            ≡ (ok tt, v))
          (sym (server.named u.trace existing there)) sent_it in
      (v, rw (found, differs, at_path) refl, after)

  updated_at :
      (existing : RealmRepresentation) (w : World)
      → realm w.trace ≡ some existing
      → Upserted (some existing) w
  updated_at existing w there =
      let (u, found, still) = get_found env c realm accepts rep.realm server existing w there in
      elim (Bool-cases (is_same existing)) [
        | inl same ↦ kept existing w u found still same
        | inr differs ↦ changed existing w u found still differs
      ]

  -- Against a server that behaves as documented, `EnsureRealm` succeeds, whatever token is cached, and
  -- is an update or an insertion: it reports whether the realm was missing, and the realm is then the
  -- wanted one, or the one that was there with the wanted state, and with the wanted display name
  -- unless that is empty.
  pub ensure_realm-upsert : (w : World) → Upserted (realm w.trace) w
  ensure_realm-upsert w = elim (Option-cases (realm w.trace)) [
    | inl absent ↦ subst (λ o. Upserted o w) (sym absent) (inserted w absent)
    | inr (existing, there) ↦ subst (λ o. Upserted o w) (sym there) (updated_at existing w there)
  ]

  upsert_again :
      (before : Option RealmRepresentation)
      → upsert rep (some (upsert rep before).1) ≡ (false, (upsert rep before).1)
  unfolding upsert
  upsert_again none = elim (Bool-cases (is_empty rep.display_name)) [
    | inl empty ↦ rw empty refl
    | inr full ↦ rw full refl
  ]
  upsert_again (some existing) = elim (Bool-cases (is_empty rep.display_name)) [
    | inl empty ↦ rw empty refl
    | inr full ↦ rw full refl
  ]

  -- Against such a server a second `EnsureRealm`, right after one that succeeded, succeeds too, reports
  -- that nothing was created, and leaves the realm as it is.
  pub ensure_realm_again :
      (w v : World) (created : Bool)
      → ensure_realm env c rep w ≡ (ok created, v)
      → (u : World) × (ensure_realm env c rep v ≡ (ok false, u)) × (realm u.trace ≡ realm v.trace)
  ensure_realm_again w v created first =
      let (v', ensured, there) = ensure_realm-upsert w in
      let here : v' ≡ v = ap (λ r. r.1) (sym ensured ∙ first) in
      let there' : realm v.trace ≡ some (upsert rep (realm w.trace)).1 =
        subst (λ x. realm x.trace ≡ some (upsert rep (realm w.trace)).1) here there in
      let (u, again, after) = updated_at (upsert rep (realm w.trace)).1 v there' in
      (
        u,
        again ∙ ap (λ r. (ok r.0, u)) (upsert_again (realm w.trace)),
        after ∙ ap (λ r. some r.1) (upsert_again (realm w.trace)) ∙ sym there',
      )
