-- ===== src/QuicPolicy/Browser/Soundness.antt =====
-- The steps of a browser's process, src/ProxyLaneHook/BrowserQuicPolicy.cpp, leave at most one thread
-- at work and never take a status back.
use proxy_lane.Common.{
  true, All-append, zero, [], inl, inr, Bool, arith, suc, ◌++◌, ◌∷◌, List, ℕ, ◌+◌, ◌≤◌, ◌≡◌, ◌⊎◌,
  All, refl, false,
}
use proxy_lane.QuicPolicy.{Status, pending, ready, unavailable}
use proxy_lane.QuicPolicy.Browser.{
  uninitialized, disabled, waiting, working, installed, failed, waiting, initialize, initialized,
  launched, on_udp, setup_failed, worked, State, disabled, working, installed, failed, Process,
}

-- The threads that a state leaves room for.
abbrev pub Threads : State → ℕ → ℕ → ℕ → Type 0
Threads disabled i l w = (i ≤ 1) × (l ≡ 0) × (w ≡ 0)
Threads working i l w = (i ≡ 0) × (l + w ≡ 1)
Threads _ i l w = (i ≡ 0) × (l ≡ 0) × (w ≡ 0)

-- A status that the process has had or has.
abbrev pub Fits : State → Status → Type 0
Fits working s = s ≡ pending
Fits installed s = (s ≡ pending) ⊎ (s ≡ ready)
Fits failed s = (s ≡ pending) ⊎ (s ≡ unavailable)
Fits _ s = ⊥

pub record IsSound (p : Process) : Type 0 where
  pub threads : Threads p.state p.initializers p.launches p.workers
  pub flights : All (Fits p.state) p.in_flight

pub All-forward :
    (a b : State)
    → ((s : Status) → Fits a s → Fits b s)
    → (l : List Status) → All (Fits a) l
    → All (Fits b) l
All-forward a b f [] h = tt
All-forward a b f (s ∷ l) h = (f s h.0, All-forward a b f l h.1)

-- A status stays right along the way of the state.
abbrev pub IsForward : State → State → Type 0
IsForward a b = (s : Status) → Fits a s → Fits b s

-- A step that keeps the threads' room, leads forward and adds no report.
moved :
    (p q : Process)
    → IsForward p.state q.state
    → q.in_flight ≡ p.in_flight
    → Threads q.state q.initializers q.launches q.workers
    → IsSound p
    → IsSound q
moved p q f e t v = record {
  threads = t;
  flights = rw e (All-forward p.state q.state f p.in_flight v.flights);
}

-- The process with these fields.
abbrev pub process : State → ℕ → ℕ → ℕ → Status → List Status → Process
process st i l w sent flights = record {
  state = st;
  initializers = i;
  launches = l;
  workers = w;
  published = sent;
  in_flight = flights;
}

-- What a step gives: it is sound again, and no status has become wrong.
abbrev pub Leads : Process → Process → Type 0
Leads p q = IsSound q × IsForward p.state q.state

stays : (p : Process) → IsSound p → Leads p p
stays p v = (v, λ s h. h)

pub initialize-Leads :
    (enabled : Bool) (st : State) (i l w : ℕ) (sent : Status) (fl : List Status)
    → IsSound (process st i l w sent fl)
    → Leads (process st i l w sent fl) (initialize enabled (process st i l w sent fl))
unfolding initialize
initialize-Leads true uninitialized i l w sent fl v = (
  moved (process uninitialized i l w sent fl) (process disabled (suc i) l w sent fl)
      (λ s h. absurd h) refl (omega (arith, v.threads)) v,
  λ s h. absurd h,
)
initialize-Leads false uninitialized i l w sent fl v = (
  moved (process uninitialized i l w sent fl) (process disabled i l w sent fl) (λ s h. absurd h)
      refl (omega (arith, v.threads)) v,
  λ s h. absurd h,
)
initialize-Leads enabled disabled i l w sent fl v = stays _ v
initialize-Leads enabled waiting i l w sent fl v = stays _ v
initialize-Leads enabled working i l w sent fl v = stays _ v
initialize-Leads enabled installed i l w sent fl v = stays _ v
initialize-Leads enabled failed i l w sent fl v = stays _ v

pub initialized-Leads :
    (found : Bool) (st : State) (i l w : ℕ) (sent : Status) (fl : List Status)
    → IsSound (process st i l w sent fl)
    → Leads (process st i l w sent fl) (initialized found (process st i l w sent fl))
unfolding initialized
initialized-Leads found st zero l w sent fl v = stays _ v
initialized-Leads true disabled (suc i) l w sent fl v = (
  moved (process disabled (suc i) l w sent fl) (process waiting i l w sent fl) (λ s h. absurd h)
      refl (omega (arith, v.threads)) v,
  λ s h. absurd h,
)
initialized-Leads false disabled (suc i) l w sent fl v = (
  moved (process disabled (suc i) l w sent fl) (process disabled i l w sent fl) (λ s h. absurd h)
      refl (omega (arith, v.threads)) v,
  λ s h. absurd h,
)
initialized-Leads found uninitialized (suc i) l w sent fl v = absurd (omega (arith, v.threads))
initialized-Leads found waiting (suc i) l w sent fl v = absurd (omega (arith, v.threads))
initialized-Leads found working (suc i) l w sent fl v = absurd (omega (arith, v.threads))
initialized-Leads found installed (suc i) l w sent fl v = absurd (omega (arith, v.threads))
initialized-Leads found failed (suc i) l w sent fl v = absurd (omega (arith, v.threads))

pub setup_failed-Leads :
    (st : State) (i l w : ℕ) (sent : Status) (fl : List Status)
    → IsSound (process st i l w sent fl)
    → Leads (process st i l w sent fl) (setup_failed (process st i l w sent fl))
unfolding setup_failed
setup_failed-Leads waiting i l w sent fl v = (
  moved (process waiting i l w sent fl) (process failed i l w sent fl) (λ s h. absurd h) refl
      (omega (arith, v.threads)) v,
  λ s h. absurd h,
)
setup_failed-Leads uninitialized i l w sent fl v = stays _ v
setup_failed-Leads disabled i l w sent fl v = stays _ v
setup_failed-Leads working i l w sent fl v = stays _ v
setup_failed-Leads installed i l w sent fl v = stays _ v
setup_failed-Leads failed i l w sent fl v = stays _ v

pub on_udp-Leads :
    (st : State) (i l w : ℕ) (sent : Status) (fl : List Status)
    → IsSound (process st i l w sent fl)
    → Leads (process st i l w sent fl) (on_udp (process st i l w sent fl))
unfolding on_udp
on_udp-Leads waiting i l w sent fl v = (
  moved (process waiting i l w sent fl) (process working i (suc l) w sent fl) (λ s h. absurd h) refl
      (omega (arith, v.threads)) v,
  λ s h. absurd h,
)
on_udp-Leads uninitialized i l w sent fl v = stays _ v
on_udp-Leads disabled i l w sent fl v = stays _ v
on_udp-Leads working i l w sent fl v = stays _ v
on_udp-Leads installed i l w sent fl v = stays _ v
on_udp-Leads failed i l w sent fl v = stays _ v

pub launched-Leads :
    (made : Bool) (st : State) (i l w : ℕ) (sent : Status) (fl : List Status)
    → IsSound (process st i l w sent fl)
    → Leads (process st i l w sent fl) (launched made (process st i l w sent fl))
unfolding launched
launched-Leads made st i zero w sent fl v = stays _ v
launched-Leads true working i (suc l) w sent fl v = (
  moved (process working i (suc l) w sent fl) (process working i l (suc w) sent fl) (λ s h. h) refl
      (omega (arith, v.threads)) v,
  λ s h. h,
)
launched-Leads false working i (suc l) w sent fl v = (
  moved (process working i (suc l) w sent fl) (process failed i l w sent fl) (λ s h. inl h) refl
      (omega (arith, v.threads)) v,
  λ s h. inl h,
)
launched-Leads made uninitialized i (suc l) w sent fl v = absurd (omega (arith, v.threads))
launched-Leads made disabled i (suc l) w sent fl v = absurd (omega (arith, v.threads))
launched-Leads made waiting i (suc l) w sent fl v = absurd (omega (arith, v.threads))
launched-Leads made installed i (suc l) w sent fl v = absurd (omega (arith, v.threads))
launched-Leads made failed i (suc l) w sent fl v = absurd (omega (arith, v.threads))

-- A report is added to those that are right.
pub sent_too :
    (st : State) (s : Status) (fl : List Status)
    → Fits st s
    → All (Fits st) fl
    → All (Fits st) (fl ++ s ∷ [])
sent_too st s fl f h = All-append (Fits st) fl (s ∷ []) h (f, tt)

pub worked-Leads :
    (done : Bool) (st : State) (i l w : ℕ) (sent : Status) (fl : List Status)
    → IsSound (process st i l w sent fl)
    → Leads (process st i l w sent fl) (worked done (process st i l w sent fl))
unfolding worked
worked-Leads done st i l zero sent fl v = stays _ v
worked-Leads true working i l (suc w) sent fl v = (
  record {
    threads = omega (arith, v.threads);
    flights =
        sent_too installed ready fl (inr refl)
          (All-forward working installed (λ s h. inl h) fl v.flights);
  },
  λ s h. inl h,
)
worked-Leads false working i l (suc w) sent fl v = (
  record {
    threads = omega (arith, v.threads);
    flights =
        sent_too failed unavailable fl (inr refl)
          (All-forward working failed (λ s h. inl h) fl v.flights);
  },
  λ s h. inl h,
)
worked-Leads done uninitialized i l (suc w) sent fl v = absurd (omega (arith, v.threads))
worked-Leads done disabled i l (suc w) sent fl v = absurd (omega (arith, v.threads))
worked-Leads done waiting i l (suc w) sent fl v = absurd (omega (arith, v.threads))
worked-Leads done installed i l (suc w) sent fl v = absurd (omega (arith, v.threads))
worked-Leads done failed i l (suc w) sent fl v = absurd (omega (arith, v.threads))

-- At most one thread is between two states.
pub Threads-le : (st : State) (i l w : ℕ) → Threads st i l w → i + (l + w) ≤ 1
Threads-le uninitialized i l w h = omega (arith, h)
Threads-le disabled i l w h = omega (arith, h)
Threads-le waiting i l w h = omega (arith, h)
Threads-le working i l w h = omega (arith, h)
Threads-le installed i l w h = omega (arith, h)
Threads-le failed i l w h = omega (arith, h)
