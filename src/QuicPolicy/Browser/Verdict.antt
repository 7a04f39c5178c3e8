-- ===== src/QuicPolicy/Browser/Verdict.antt =====
-- The verdict on a browser, from its process to the host's table, over all orders of the threads and
-- of the reports: src/ProxyLaneHook/BrowserQuicPolicy.cpp.
use mathlib.Core.Path.{subst}
use proxy_lane.Common.{
  ℕ, ◌+◌, ◌≤◌, ◌≡◌, refl, sym, ◌∙◌, ◌≢◌, ◌⊎◌, inl, inr, Bool, false, not, ◌&&◌, ◌||◌, Option, none,
  some, List, [], ◌∷◌, ◌++◌, arith, All, Bool-cases, Option-cases,
}
use proxy_lane.QuicPolicy.{
  Status, no_status, pending, ready, unavailable, is_none, is_pending, Report, Entry, Key, Table,
  find, observe, lookup,
}
use proxy_lane.QuicPolicy.Reports.{observe_lem, reported}
use proxy_lane.QuicPolicy.Browser.{
  State, uninitialized, disabled, waiting, working, installed, failed, Process, new_process,
  current_status, initialize, initialized, setup_failed, on_udp, launched, worked, same_status,
  publish, published,
}
use proxy_lane.QuicPolicy.Browser.Soundness.{
  Threads-le, Fits, IsSound, Leads, initialize-Leads, initialized-Leads, setup_failed-Leads,
  on_udp-Leads, launched-Leads, worked-Leads, sent_too,
}

publish-at :
    (p : Process) (st : State)
    → p.state ≡ st
    → is_none (current_status st) ≡ false
    → Fits st (current_status st)
publish-at p uninitialized e h = cc
publish-at p disabled e h = cc
publish-at p waiting e h = cc
publish-at p working e h = refl
publish-at p installed e h = inr refl
publish-at p failed e h = inr refl

publish-IsSound : (p : Process) → IsSound p → IsSound (publish p)
unfolding publish
publish-IsSound p v =
    elim (Bool-cases
      (is_none (current_status p.state) || same_status (current_status p.state) p.published)) [
        | inl e ↦ rw e v
        | inr e ↦
            let n : is_none (current_status p.state) ≡ false = ground (arith, e) in
            rw e (record {
              threads = v.threads;
              flights =
                  sent_too p.state (current_status p.state) p.in_flight
                    (publish-at p p.state refl n) v.flights;
            })
      ]

publish-state : (p : Process) → (publish p).state ≡ p.state
unfolding publish
publish-state p = ground arith

Fits-some : (st : State) (s : Status) → Fits st s → is_none s ≡ false
Fits-some st pending h = refl
Fits-some st ready h = refl
Fits-some st unavailable h = refl
Fits-some uninitialized no_status h = absurd h
Fits-some disabled no_status h = absurd h
Fits-some waiting no_status h = absurd h
Fits-some working no_status h = absurd (cc)
Fits-some installed no_status h = absurd (elim h [ inl e ↦ cc | inr e ↦ cc ])
Fits-some failed no_status h = absurd (elim h [ inl e ↦ cc | inr e ↦ cc ])

reported-Fits :
    (st : State) (s : Status) (updated : ℕ) (o : Option Entry)
    → Fits st s
    → ((e : Entry) → o ≡ some e → Fits st e.status)
    → Fits st (reported s updated o).status
reported-Fits st s updated none f h = f
reported-Fits st s updated (some old) f h =
    elim (Bool-cases (not (is_pending old.status) && is_pending s)) [
      | inl e ↦ rw e (h old refl)
      | inr e ↦ rw e f
    ]

-- The browser's process and the host's table.
pub record World : Type 0 where
  pub process : Process
  pub table : Table

module _ (owner pid birth : ℕ) where
  abbrev key : Key
  key = record { owner = owner; pid = pid; birth = birth }

  -- One step of the process, the arrival of a report or its loss, or what the host's table meets from
  -- elsewhere: reports of other processes, which may evict this one's entry, and Forget.
  pub data Step : World → World → Type 0 where
    initialize_step :
        (w : World) (enabled : Bool) → Step w (record w { process = initialize enabled w.process })
    initialized_step :
        (w : World) (found : Bool) → Step w (record w { process = initialized found w.process })
    setup_failed_step : (w : World) → Step w (record w { process = setup_failed w.process })
    on_udp_step : (w : World) → Step w (record w { process = on_udp w.process })
    launched_step :
        (w : World) (made : Bool) → Step w (record w { process = launched made w.process })
    worked_step : (w : World) (done : Bool) → Step w (record w { process = worked done w.process })
    publish_step : (w : World) → Step w (record w { process = publish w.process })
    published_step :
        (w : World) (s : Status) → Step w (record w { process = published s w.process })
    arrive :
        (w : World) (before after : List Status) (s : Status) (now updated : ℕ)
        → w.process.in_flight ≡ before ++ (s ∷ after)
        → Step w (record {
          process = record w.process { in_flight = before ++ after };
          table = observe now updated w.table owner pid (record { birth = birth; status = some s });
        })
    lose :
        (w : World) (before after : List Status) (s : Status)
        → w.process.in_flight ≡ before ++ (s ∷ after)
        → Step w (record w { process = record w.process { in_flight = before ++ after } })
    elsewhere :
        (w : World) (t : Table)
        → (find t key ≡ find w.table key) ⊎ (find t key ≡ none)
        → Step w (record w { table = t })

  pub data Reach (w : World) : World → Type 0 where
    here : Reach w w
    next : {u v : World} → Reach w u → Step u v → Reach w v

  -- The host's entry tells a status that the process has had or has.
  record IsTold (w : World) : Type 0 where
    pub sound : IsSound w.process
    pub entry : (e : Entry) → find w.table key ≡ some e → Fits w.process.state e.status

  led : (w : World) (q : Process) → Leads w.process q → IsTold w → IsTold (record w { process = q })
  led w q l v = record { sound = l.0; entry = λ e h. l.1 e.status (v.entry e h) }

  without :
      (st : State) (before after : List Status) (s : Status)
      → All (Fits st) (before ++ (s ∷ after))
      → All (Fits st) (before ++ after) × Fits st s
  without st [] after s h = (h.1, h.0)
  without st (b ∷ before) after s h =
      let rest = without st before after s h.1 in ((h.0, rest.0), rest.1)

  arrived :
      (w : World) (s : Status) (now updated : ℕ)
      → pid ≢ 0
      → birth ≢ 0
      → Fits w.process.state s
      → IsTold w
      → (e : Entry)
      → find (observe now updated w.table owner pid (record { birth = birth; status = some s })) key
        ≡ some e
      → Fits w.process.state e.status
  arrived w s now updated p b f v e h =
      let r : Report = record { birth = birth; status = some s } in
      let wrote =
        observe_lem now updated w.table owner pid r s p b refl (Fits-some w.process.state s f) in
      let same : some (reported s updated (find w.table key)) ≡ some e = sym wrote.1 ∙ h in
      let same' : reported s updated (find w.table key) ≡ e = cc in
      subst (λ (x : Entry). Fits w.process.state x.status) same'
        (reported-Fits w.process.state s updated (find w.table key) f v.entry)

  Step-IsTold : {w u : World} → pid ≢ 0 → birth ≢ 0 → Step w u → IsTold w → IsTold u
  Step-IsTold p b (initialize_step w enabled) v =
      let q = w.process in
      led w (initialize enabled q)
        (initialize-Leads enabled q.state q.initializers q.launches q.workers q.published
          q.in_flight v.sound)
        v
  Step-IsTold p b (initialized_step w found) v =
      let q = w.process in
      led w (initialized found q)
        (initialized-Leads found q.state q.initializers q.launches q.workers q.published q.in_flight
          v.sound)
        v
  Step-IsTold p b (setup_failed_step w) v =
      let q = w.process in
      led w (setup_failed q)
        (setup_failed-Leads q.state q.initializers q.launches q.workers q.published q.in_flight
          v.sound)
        v
  Step-IsTold p b (on_udp_step w) v =
      let q = w.process in
      led w (on_udp q)
        (on_udp-Leads q.state q.initializers q.launches q.workers q.published q.in_flight v.sound) v
  Step-IsTold p b (launched_step w made) v =
      let q = w.process in
      led w (launched made q)
        (launched-Leads made q.state q.initializers q.launches q.workers q.published q.in_flight
          v.sound)
        v
  Step-IsTold p b (worked_step w done) v =
      let q = w.process in
      led w (worked done q)
        (worked-Leads done q.state q.initializers q.launches q.workers q.published q.in_flight
          v.sound)
        v
  Step-IsTold p b (publish_step w) v =
      led w (publish w.process)
        (
          publish-IsSound w.process v.sound,
          λ s h. subst (λ st. Fits st s) (sym (publish-state w.process)) h,
        )
        v
  Step-IsTold p b (published_step w s) v =
      let l : Leads w.process (published s w.process) =
        unfold published in
        (record { threads = v.sound.threads; flights = v.sound.flights }, λ x h. h) in
      led w (published s w.process) l v
  Step-IsTold p b (arrive w before after s now updated f) v =
      let (kept, fits) =
        without w.process.state before after s
          (subst (All (Fits w.process.state)) f v.sound.flights) in
      record {
        sound = record { threads = v.sound.threads; flights = kept };
        entry = arrived w s now updated p b fits v;
      }
  Step-IsTold p b (lose w before after s f) v =
      let (kept, fits) =
        without w.process.state before after s
          (subst (All (Fits w.process.state)) f v.sound.flights) in
      record { sound = record { threads = v.sound.threads; flights = kept }; entry = v.entry }
  Step-IsTold p b (elsewhere w t h) v = record {
    sound = v.sound;
    entry = λ e k. elim h [
      | inl same ↦ v.entry e (sym same ∙ k)
      | inr gone ↦ absurd (ground (arith, gone, k))
    ];
  }

  Reach-IsTold : {w u : World} → pid ≢ 0 → birth ≢ 0 → IsTold w → Reach w u → IsTold u
  Reach-IsTold p b v here = v
  Reach-IsTold p b v (next r s) = Step-IsTold p b s (Reach-IsTold p b v r)

  verdict :
      (st : State) (s : Status)
      → Fits st s
      → (s ≡ ready → st ≡ installed) × (s ≡ unavailable → st ≡ failed)
  verdict uninitialized s h = absurd h
  verdict disabled s h = absurd h
  verdict waiting s h = absurd h
  verdict working s h = (λ e. absurd (ground (arith, h, e)), λ e. absurd (ground (arith, h, e)))
  verdict installed s h = (
    λ e. refl,
    λ e. absurd (elim h [ inl k ↦ ground (arith, k, e) | inr k ↦ ground (arith, k, e) ]),
  )
  verdict failed s h = (
    λ e. absurd (elim h [ inl k ↦ ground (arith, k, e) | inr k ↦ ground (arith, k, e) ]),
    λ e. refl,
  )

  told-Fits :
      (w : World) (s : Status)
      → IsTold w
      → is_none s ≡ false
      → lookup w.table owner pid birth no_status ≡ s
      → Fits w.process.state s
  unfolding lookup
  told-Fits w s v n h = elim (Option-cases (find w.table key)) [
    | inl e ↦ absurd (ground (arith, e, h, n))
    | inr (e, k) ↦ subst (Fits w.process.state) (ground (arith, k, h)) (v.entry e k)
  ]

  -- However the threads of the process, its reports and those of other processes interleave, and
  -- whichever are lost: from a new process of which the table holds nothing, the table reads ready
  -- only while the process has installed its hook and unavailable only where it has failed; and at
  -- any time at most one thread of the process is between two states.
  pub Reach_verdict :
      (table : Table) {w : World}
      → pid ≢ 0
      → birth ≢ 0
      → find table key ≡ none
      → Reach (record { process = new_process; table = table }) w
      → let told = lookup w.table owner pid birth no_status in
        let p = w.process in
        (told ≡ ready → p.state ≡ installed)
        × (told ≡ unavailable → p.state ≡ failed)
        × (p.initializers + (p.launches + p.workers) ≤ 1)
  Reach_verdict table {w} p b h r =
      let start : IsTold (record { process = new_process; table = table }) = record {
        sound = record { threads = omega arith; flights = tt };
        entry = λ e k. absurd (ground (arith, h, k));
      } in
      let v = Reach-IsTold p b start r in
      (
        λ e. (verdict w.process.state ready (told-Fits w ready v refl e)).0 refl,
        λ e. (verdict w.process.state unavailable (told-Fits w unavailable v refl e)).1 refl,
        Threads-le w.process.state w.process.initializers w.process.launches w.process.workers
            v.sound.threads,
      )
