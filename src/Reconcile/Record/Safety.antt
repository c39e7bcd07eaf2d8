-- ===== src/Reconcile/Record/Safety.antt =====
-- A DNSEndpoint is written only for names in the zone that was read.
use inari_operator.Base.{
  ◌≡◌, ◌⊎◌, inl, inr, true, Option, none, some, List, [], ◌∷◌, All, Bool-cases, refl, ap, ◌∙◌, sym,
}
use inari_operator.Text.{Str}
use inari_operator.Api.{Key}
use inari_operator.Api.Items.{DnsRecord, DnsZone, DnsRecordEndpoint}
use inari_operator.Cluster.Errors.{ok, err, Result-cases}
use inari_operator.Cluster.Env.{dns_records, Env, read, dns_zones}
use inari_operator.Cluster.Exec.{World, attempt, log, ◌>>=◌}
use inari_operator.Cluster.Exec.Keeps.{Keeps-pure, Keeps, applications}
use inari_operator.Dns.{dns_names_in_zone}
use inari_operator.Reconcile.Status.Keeps.{status_keeps_rules}
use inari_operator.Cluster.Calls.Keeps.{Ignores-applications}
use inari_operator.Reconcile.Lifecycle
use inari_operator.Reconcile.Lifecycle.Frame.{reconcile_frame}
use inari_operator.Reconcile.Record.{
  reconcile, handler, provision, after_zone, checked, refuse, first_outside, zone_key,
}

abbrev pub InZone : Str → DnsRecordEndpoint → Type 0
InZone zone ep = dns_names_in_zone ep.dns_name zone ≡ true

first_outside-none :
    (zone : Str) (eps : List DnsRecordEndpoint)
    → first_outside zone eps ≡ none
    → All (InZone zone) eps
unfolding first_outside
first_outside-none zone [] h = tt
first_outside-none zone (ep ∷ eps) h = elim (Bool-cases (dns_names_in_zone ep.dns_name zone)) [
  | inl inside ↦ (inside, first_outside-none zone eps (rw inside at h))
  | inr outside ↦ let bad : some ep ≡ none = rw outside at h in cc
]

module _ (env : Env) where
  module _ (rec : DnsRecord) where
    Keeps-refuse :
        (zone : DnsZone) (ep : DnsRecordEndpoint) → Keeps applications (refuse env rec zone ep)
    unfolding refuse
    Keeps-refuse zone ep = search (status_keeps_rules, Ignores-applications)

    Keeps-no_zone : (e : _) → Keeps applications (after_zone env rec (err e))
    unfolding after_zone
    Keeps-no_zone e = search (status_keeps_rules, Ignores-applications)

    checked_safe :
        (zone : DnsZone) (o : Option DnsRecordEndpoint) (w : World)
        → (applications (checked env rec zone o w).1.trace ≡ applications w.trace) ⊎ (o ≡ none)
    unfolding checked
    checked_safe zone none w = inr refl
    checked_safe zone (some ep) w = inl ((Keeps-refuse zone ep).same w)

    -- Provisioning a record either writes nothing by `CreateOrUpdate`, or the zone that it refers to
    -- was read and the name of each endpoint of the record lies in that zone.
    pub record_provision_safe :
        (w : World)
        → (applications (provision env rec w).1.trace ≡ applications w.trace)
          ⊎ ((zone : DnsZone) × (env.get_dns_zone w.trace (zone_key rec) ≡ ok zone)
              × All (InZone zone.spec.zone_name) rec.spec.endpoints)
    unfolding provision after_zone attempt ◌>>=◌
    record_provision_safe w = elim (Result-cases (env.get_dns_zone w.trace (zone_key rec))) [
      | inr (e, missing) ↦
          inl (rw missing ((Keeps-no_zone e).same (log (read dns_zones (zone_key rec)) w)))
      | inl (zone, found) ↦
          elim (checked_safe zone (first_outside zone.spec.zone_name rec.spec.endpoints)
            (log (read dns_zones (zone_key rec)) w)) [
              | inl kept ↦ inl (rw found kept)
              | inr inside ↦
                  inr
                    (zone, found, first_outside-none zone.spec.zone_name rec.spec.endpoints inside)
            ]
    ]

module _ (env : Env) (key : Key) (w : World) where
  -- A reconcile of a DNSRecord either writes nothing by `CreateOrUpdate`, or the record and then the
  -- zone that it refers to were read, and the name of each endpoint of the record lies in that zone.
  pub record_reconcile_safe :
      (applications (reconcile env key w).1.trace ≡ applications w.trace)
      ⊎ ((rec : DnsRecord) × (zone : DnsZone) × (env.get_dns_record w.trace key ≡ ok rec)
          × (env.get_dns_zone (read dns_records key ∷ w.trace) (zone_key rec) ≡ ok zone)
          × All (InZone zone.spec.zone_name) rec.spec.endpoints)
  unfolding reconcile handler
  record_reconcile_safe =
      elim (reconcile_frame env (handler env) (λ rec. Keeps-pure applications tt)
        (λ rec p. Keeps-pure applications tt) (λ rec p. Keeps-pure applications tt) key w) [
          | inl same ↦ inl same
          | inr (rec, p, w', found, prepared, live, has, work) ↦
              let here : log (read dns_records key) w ≡ w' = ap (λ r. r.1) prepared in
              let work' : Lifecycle.reconcile env (handler env) key w
                  ≡ provision env rec (log (read dns_records key) w) =
                work ∙ ap (provision env rec) (sym here) in
              elim (record_provision_safe env rec (log (read dns_records key) w)) [
                | inl same ↦ inl (ap (λ r. applications r.1.trace) work' ∙ same)
                | inr (zone, read_zone, inside) ↦ inr (rec, zone, found, read_zone, inside)
              ]
        ]
