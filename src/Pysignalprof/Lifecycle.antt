-- ===== src/Pysignalprof/Lifecycle.antt =====
-- What a start of the signal profiler leaves behind (kit/pysignalprof/src/lib.rs).
use pyroscope_rs.Base.{
  ℕ, zero, suc, ◌+◌, ◌≡◌, refl, sym, ap, ◌∙◌, ◌≢◌, Bool, true, false, List, [], ◌∷◌, ◌++◌, some,
  ◌⊎◌, inl, inr, length, length-append, get_elem?, if◌then◌else◌, arith, Bool-cases,
}
use pyroscope_rs.Pysignalprof.{Shard, HandlerState}
use pyroscope_rs.Pysignalprof.Handled.{IsReady}
use pyroscope_rs.Pysignalprof.Start.{
  InitError, already_running, Checked, good, bad, ◌>>=◌, mapped, succeeds, Environment, Globals,
  Config, splits, new_shard, repeated, prepare, publish, init_sequence, shards_or_default, settle,
  start,
}
use pyroscope_rs.PythonOffsets

length-repeated {ℓ} : {A : Type ℓ} (n : ℕ) (a : A) → length (repeated n a) ≡ n
length-repeated zero a = refl
length-repeated (suc n) a = ap suc (length-repeated n a)

get_elem?-repeated {ℓ} :
    {A : Type ℓ} (n : ℕ) (a : A) (i : ℕ) (x : A) → get_elem? (repeated n a) i ≡ some x → x ≡ a
get_elem?-repeated zero a i x h = cc
get_elem?-repeated (suc n) a zero x h = ground (arith, h)
get_elem?-repeated (suc n) a (suc i) x h = get_elem?-repeated n a i x h

>>=-eq_good :
    {A B : Type 0} (m : Checked A) (f : A → Checked B) {b : B}
    → (m >>= f) ≡ good b
    → (a : A) × (m ≡ good a) × (f a ≡ good b)
>>=-eq_good (good a) f h = (a, refl, h)
>>=-eq_good (bad e) f h = cc

-- A state as it is made: every shard new.
pub record IsNew (num_shards : ℕ) (s : HandlerState) : Type 0 where
  pub counted : s.num_shards ≡ num_shards
  pub shards : s.shards ≡ repeated num_shards new_shard
  pub interval : s.notify_interval ≡ 32

prepare-IsNew :
    (env : Environment) (config : Config) (n : ℕ) (s : HandlerState)
    → prepare env config n ≡ good s
    → IsNew n s
unfolding prepare
prepare-IsNew env config n s h =
    let (a, e₁, h₁) = >>=-eq_good (succeeds env.kindasafe _) _ h in
    let (binary, e₂, h₂) = >>=-eq_good (mapped env.binary) _ h₁ in
    let (symbols, e₃, h₃) = >>=-eq_good (mapped (env.symbols binary)) _ h₂ in
    let (version, e₄, h₄) =
      >>=-eq_good (mapped (PythonOffsets.detect_version env.read symbols.py_version_addr)) _ h₃ in
    let (hex, e₅, h₅) =
      >>=-eq_good (mapped (PythonOffsets.read_version_hex env.read symbols.py_version_addr)) _ h₄ in
    let (offsets, e₆, h₆) =
      >>=-eq_good
        (mapped (
          PythonOffsets.read_debug_offsets env.size env.layout env.slice symbols.py_runtime_addr
            version hex))
        _ h₅ in
    let (b, e₇, h₇) = >>=-eq_good (succeeds (splits env.split 0 n) _) _ h₆ in
    let (c, e₈, h₈) = >>=-eq_good (succeeds env.eventfd _) _ h₇ in ground (arith, h₈)

pub IsNew-IsReady : (n : ℕ) (s : HandlerState) → n ≢ 0 → IsNew n s → IsReady s
IsNew-IsReady n s pos new = record {
  counted =
      new.counted
      ∙ sym (ap (λ (x : List Shard). length x) new.shards ∙ length-repeated n new_shard);
  some_shards = λ e. pos (sym new.counted ∙ e);
  interval = λ e. absurd (omega (arith, new.interval, e));
  buffers = λ i shard at.
      let e : shard ≡ new_shard = get_elem?-repeated n new_shard i shard (rw new.shards at at) in
      ap (λ (x : Shard). length x.frame_buffer) e;
}

-- The globals after a start that succeeds.
pub record IsStarted (config : Config) (g g' : Globals) : Type 0 where
  pub was_idle : g.running ≡ false
  pub running : g'.running ≡ true
  pub state : HandlerState
  pub published : g'.handler_state ≡ some state
  pub ready : IsReady state
  pub shards : length state.shards ≡ shards_or_default config.num_shards
  pub reader : g'.readers ≡ g.readers ++ state ∷ []
  pub handler_installed : g'.handler_installed ≡ true
  pub timer_started : g'.timer_started ≡ true

-- The globals after a start that fails: as they were, for a profiler that runs already; or it may be started
-- again, its timer is as it was, and at most one reader thread more is there.
pub data Failed (e : InitError) (g g' : Globals) : Type 0 where
  twice : e ≡ already_running → g.running ≡ true → g' ≡ g → Failed e g g'
  undone :
      g.running ≡ false
      → g'.running ≡ false
      → g'.timer_started ≡ g.timer_started
      → (g'.readers ≡ g.readers) ⊎ ((state : HandlerState) × (g'.readers ≡ g.readers ++ state ∷ []))
      → Failed e g g'

abbrev pub Settles : Config → Globals → Checked (Unit {0}) × Globals → Type 0
Settles config g (good _, g') = IsStarted config g g'
Settles config g (bad e, g') = Failed e g g'

pos_shards : (n : ℕ) → shards_or_default n ≢ 0
pos_shards n e = ground arith

publish-Settles :
    (env : Environment) (config : Config) (g : Globals) (state : HandlerState) (log : Bool)
    → g.running ≡ false
    → IsReady state
    → length state.shards ≡ shards_or_default config.num_shards
    → Settles config g (settle (publish env state (record g { running = true; log_enabled = log })))
unfolding publish
publish-Settles env config g state log idle ready shards = elim (Bool-cases env.spawns) [
  | inr no_thread ↦ rw no_thread (undone idle refl refl (inl refl))
  | inl spawned ↦ elim (Bool-cases env.sigaction) [
    | inr refused ↦ rw (spawned, refused) (undone idle refl refl (inr (state, refl)))
    | inl installed ↦ elim (Bool-cases env.sanity) [
      | inr broken ↦ rw (spawned, installed, broken) (undone idle refl refl (inr (state, refl)))
      | inl sane ↦ elim (Bool-cases env.timer) [
        | inr stuck ↦
            rw (spawned, installed, sane, stuck) (undone idle refl refl (inr (state, refl)))
        | inl ticks ↦
            rw (spawned, installed, sane, ticks)
              (record {
                was_idle = idle;
                running = refl;
                state = state;
                published = refl;
                ready = ready;
                shards = shards;
                reader = refl;
                handler_installed = refl;
                timer_started = refl;
              })
      ]
    ]
  ]
]

init_sequence-Settles :
    (env : Environment) (config : Config) (g : Globals) (log : Bool) (c : Checked HandlerState)
    → g.running ≡ false
    → prepare env config (shards_or_default config.num_shards) ≡ c
    → Settles config g (
        settle (
          init_sequence env config
            (shards_or_default config.num_shards)
            (record g { running = true; log_enabled = log })))
unfolding init_sequence
init_sequence-Settles env config g log (bad e) idle p =
    rw (p, init_sequence) (undone idle refl refl (inl refl))
init_sequence-Settles env config g log (good state) idle p =
    let n = shards_or_default config.num_shards in
    let new = prepare-IsNew env config n state p in
    let ready = IsNew-IsReady n state (pos_shards config.num_shards) new in
    rw (p, init_sequence)
      (publish-Settles env config g state log idle ready (sym ready.counted ∙ new.counted))

start_busy :
    (env : Environment) (config : Config) (g : Globals)
    → g.running ≡ true
    → start env config g ≡ (bad already_running, g)
unfolding start
start_busy env config g busy = simp busy

-- the globals that the initialization is given
abbrev begun : Config → Globals → Globals
begun config g = record g {
  running = true;
  log_enabled = if config.log_enabled then true else g.log_enabled;
}

start_idle :
    (env : Environment) (config : Config) (g : Globals)
    → g.running ≡ false
    → start env config g
      ≡ settle (init_sequence env config (shards_or_default config.num_shards) (begun config g))
unfolding start
start_idle env config g idle = simp idle

-- A start, whatever its environment does, either succeeds, and then the profiler was not running, it is
-- now, its state is published and ready, with the shards asked for (16 for 0), one reader thread more is there,
-- and the handler and the timer are on; or it fails, and then it ran already and nothing changes, or
-- it can be started again, the timer is as it was and at most one reader thread more is there.
pub start-Settles :
    (env : Environment) (config : Config) (g : Globals) → Settles config g (start env config g)
start-Settles env config g = elim (Bool-cases g.running) [
  | inl busy ↦ rw (start_busy env config g busy) (twice refl busy refl)
  | inr idle ↦ rw (start_idle env config g idle) (
      init_sequence-Settles env config g (if config.log_enabled then true else g.log_enabled)
        (prepare env config (shards_or_default config.num_shards)) idle refl)
]

-- The globals after some starts in turn.
abbrev pub starts : ℕ → Environment → Config → Globals → Globals
starts zero env config g = g
starts (suc n) env config g = starts n env config (start env config g).1

leak :
    (env : Environment) (config : Config) (g : Globals) (state : HandlerState)
    → prepare env config (shards_or_default config.num_shards) ≡ good state
    → env.spawns ≡ true
    → env.sigaction ≡ true
    → env.sanity ≡ false
    → g.running ≡ false
    → ((start env config g).1.readers ≡ g.readers ++ state ∷ [])
      × ((start env config g).1.running ≡ false)
      × ((start env config g).1.handler_installed ≡ true)
      × ((start env config g).1.handler_state ≡ some state)
unfolding init_sequence publish
leak env config g state p spawned installed broken idle =
    rw (start_idle env config g idle, p, init_sequence, spawned, installed, broken)
      (refl, refl, refl, refl)

-- Where the initialization gets as far as its sanity check and fails there, every further start leaves one more
-- reader thread behind, with the state and the handler installed, in a profiler that counts as not running.
pub start_leaks :
    (env : Environment) (config : Config) (g : Globals) (state : HandlerState) (n : ℕ)
    → prepare env config (shards_or_default config.num_shards) ≡ good state
    → env.spawns ≡ true
    → env.sigaction ≡ true
    → env.sanity ≡ false
    → g.running ≡ false
    → (length (starts (suc n) env config g).readers ≡ length g.readers + suc n)
      × ((starts (suc n) env config g).handler_state ≡ some state)
      × ((starts (suc n) env config g).handler_installed ≡ true)
      × ((starts (suc n) env config g).running ≡ false)
start_leaks env config g state zero p spawned installed broken idle =
    let (readers, again, kept, there) = leak env config g state p spawned installed broken idle in
    (
      ap (λ (x : List HandlerState). length x) readers ∙ length-append g.readers (state ∷ []),
      there,
      kept,
      again,
    )
start_leaks env config g state (suc n) p spawned installed broken idle =
    let (readers, again, kept, there) = leak env config g state p spawned installed broken idle in
    let (count, published, handler, end) =
      start_leaks env config (start env config g).1 state n p spawned installed broken again in
    (
      omega (
        arith,
        count,
        ap (λ (x : List HandlerState). length x) readers,
        length-append g.readers (state ∷ []),
      ),
      published,
      handler,
      end,
    )
