-- ===== src/Ingestion/Urgent.antt =====
-- Which alerts of services/ingestion.py are published, and that a cyclone or a tsunami goes out first.
use ocean_data_engine_fronte.Prelude.{
  ℕ, ◌⊎◌, inl, inr, ◌≡◌, refl, sym, ap, ◌∙◌, String, str_append, [], ◌∷◌, ◌++◌, Bool, true, false,
  not, ◌&&◌, Option, none, some, arith, if◌then◌else◌,
}
use ocean_data_engine_fronte.Prelude.Float.{Float}
use ocean_data_engine_fronte.Prelude.Json.{JsonFields}
use ocean_data_engine_fronte.Queue.Priority.{QueuePriority, critical_alerts}
use ocean_data_engine_fronte.Queue.Defs.{
  Message, Fresh, InMemoryQueue, was_seen, new_message, publish,
}
use ocean_data_engine_fronte.Qc.Checks.{accepted, rejected, quarantined}
use ocean_data_engine_fronte.Qc.Disposition.{geometry_holds, window_holds, qc_geometry_status}
use ocean_data_engine_fronte.Ingestion.Parsed.{
  RawPayload, ParsedAlert, ParsedCyclone, ParsedTsunami,
}
use ocean_data_engine_fronte.Ingestion.Tables.{
  Externals, Ledger, exists, is_rejected, audit, publish_event, offer, severity_priority,
}
use ocean_data_engine_fronte.Ingestion.Records.{
  alert_key, alert_qc, alert_event, loaded_of, store_alert, announce_alert, ingest_alert,
}
use ocean_data_engine_fronte.Ingestion.Run.{cyclone_alert, tsunami_alert}
use ocean_data_engine_fronte.Ingestion.Cases

pub is_rejected-if :
    (b c : Bool)
    → is_rejected (if b then (if c then quarantined else accepted) else rejected) ≡ not b
is_rejected-if b c = ground arith

-- A test decides what was chosen.
chosen : {A : Type 0} (b : Bool) (x y : A) → b ≡ true → x ≡ (if b then x else y)
chosen b x y e = ap (λ c. if c then x else y) (sym e)

left_out : {A : Type 0} (b : Bool) (x y : A) → b ≡ false → y ≡ (if b then x else y)
left_out b x y e = ap (λ c. if c then x else y) (sym e)

known : (b c : Bool) → b ≡ true → (not b && c) ≡ false
known b c h = ground arith

fails : (b c r : Bool) → r ≡ not c → r ≡ true → (not b && c) ≡ false
fails b c r h k = ground arith

passes : (b c r : Bool) → r ≡ not c → b ≡ false → r ≡ false → (not b && c) ≡ true
passes b c r h e k = ground arith

publish-new :
    (q : InMemoryQueue) (fresh : Fresh) (p : QueuePriority) (event : JsonFields) (key : String)
    (n : ℕ)
    → was_seen key q.seen_keys ≡ false
    → (publish q fresh p event key n).0 ≡ record q {
      seen_keys = key ∷ q.seen_keys;
      pending = q.pending ++ new_message fresh p event key n ∷ [];
    }
unfolding publish
publish-new q fresh p event key n h =
    let msg = new_message fresh p event key n in
    let taken : InMemoryQueue × Option Message =
      (record q { seen_keys = key ∷ q.seen_keys; pending = q.pending ++ msg ∷ [] }, some msg) in
    let dropped : InMemoryQueue × Option Message = (q, none) in
    let pick : Bool → InMemoryQueue × Option Message = λ seen. if seen then dropped else taken in
    ap (λ seen. (pick seen).0) h

module _ {W G : Type 0} ⦃f : Float W⦄ (x : Externals W G) where
  abbrev pub alert_holds : ParsedAlert G → Bool
  alert_holds a =
      geometry_holds (loaded_of x a.geometry) && window_holds a.effective_from a.valid_until

  is_rejected-alert_qc :
      (a : ParsedAlert G) → is_rejected (alert_qc x a).status ≡ not (alert_holds a)
  unfolding alert_qc
  is_rejected-alert_qc a =
      ap is_rejected (qc_geometry_status W (loaded_of x a.geometry) a.effective_from a.valid_until)
      ∙ is_rejected-if (alert_holds a) _

  -- An alert is offered to the queue, with the priority of its kind and severity, exactly when its key is new, its
  -- geometry is missing or can be used, and its validity does not end before it begins; the queue is left as it
  -- is otherwise.
  pub ingest_alert-queue :
      (raw : RawPayload) (a : ParsedAlert G) (s : Ledger W G)
      → (ingest_alert x raw a s).queue ≡ (
          if not (exists (alert_key x a) s.alerts) && alert_holds a
          then offer s.queue
              (x.fresh s.offered)
              (severity_priority a.event_type a.severity)
              (alert_event x a)
              (str_append "event:" (alert_key x a))
          else s.queue)
  unfolding store_alert announce_alert audit publish_event
  ingest_alert-queue raw a s =
      let sent =
        offer s.queue (x.fresh s.offered) (severity_priority a.event_type a.severity)
          (alert_event x a) (str_append "event:" (alert_key x a)) in
      let b = exists (alert_key x a) s.alerts in
      let c = alert_holds a in
      let r = is_rejected-alert_qc a in
      Cases.ingest_alert-cases (λ t. t.queue ≡ (if not b && c then sent else s.queue)) x raw a s
        (λ e. left_out (not b && c) sent s.queue (known b c e))
        (λ e d. left_out (not b && c) sent s.queue (fails b c _ r d))
        (λ e d. chosen (not b && c) sent s.queue (passes b c _ r e d))

  -- the alert is new to its table and to the queue, and its geometry and validity hold
  abbrev pub IsNews : ParsedAlert G → Ledger W G → InMemoryQueue → Type 0
  IsNews a s q =
      (s.queue ≡ some q)
      × (exists (alert_key x a) s.alerts ≡ false)
      × (alert_holds a ≡ true)
      × (was_seen (str_append "event:" (alert_key x a)) q.seen_keys ≡ false)

  -- the queue with the alert's event waiting behind the others, as critical
  abbrev pub with_critical : ParsedAlert G → Ledger W G → InMemoryQueue → InMemoryQueue
  with_critical a s q =
      let key = str_append "event:" (alert_key x a) in
      record q {
        seen_keys = key ∷ q.seen_keys;
        pending =
            q.pending
            ++ new_message (x.fresh s.offered) critical_alerts (alert_event x a) key 5 ∷ [];
      }

  news-critical :
      (raw : RawPayload) (a : ParsedAlert G) (s : Ledger W G) (q : InMemoryQueue)
      → severity_priority a.event_type a.severity ≡ critical_alerts
      → IsNews a s q
      → (ingest_alert x raw a s).queue ≡ some (with_critical a s q)
  news-critical raw a s q p h =
      let key = str_append "event:" (alert_key x a) in
      let b = not (exists (alert_key x a) s.alerts) && alert_holds a in
      ingest_alert-queue raw a s
      ∙ (sym (chosen b _ s.queue (passes _ _ false (ap not (sym h.2)) h.1 refl))
          ∙ (ap
                (λ o.
                  offer o (x.fresh s.offered) (severity_priority a.event_type a.severity)
                    (alert_event x a) key)
                h.0
              ∙ (ap (λ r. some (publish q (x.fresh s.offered) r (alert_event x a) key 5).0) p
                  ∙ ap some (
                      publish-new q (x.fresh s.offered) critical_alerts (alert_event x a) key 5
                        h.3))))

  abbrev pub hazard_alert : ParsedCyclone W G ⊎ ParsedTsunami W → ParsedAlert G
  hazard_alert (inl c) = cyclone_alert x c
  hazard_alert (inr t) = tsunami_alert x t

  -- A cyclone, and a tsunami of any alert level, is published as a critical alert, when its key is new to the
  -- table and to the queue and its track or epicentre is missing or can be used.
  pub hazards-critical :
      (raw : RawPayload) (hazard : ParsedCyclone W G ⊎ ParsedTsunami W) (s : Ledger W G)
      (q : InMemoryQueue)
      → IsNews (hazard_alert hazard) s q
      → (ingest_alert x raw (hazard_alert hazard) s).queue
        ≡ some (with_critical (hazard_alert hazard) s q)
  unfolding cyclone_alert tsunami_alert severity_priority
  hazards-critical raw (inl c) s q h = news-critical raw (cyclone_alert x c) s q refl h
  hazards-critical raw (inr t) s q h = news-critical raw (tsunami_alert x t) s q refl h
