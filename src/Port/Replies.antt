-- ===== src/Port/Replies.antt =====
-- torrent-port.js: what each request adds to those that are answered or executed.
use my.Base.{
  ℕ, ◌+◌, ◌≡◌, refl, Bool, true, false, Option, none, some, List, [], ◌∷◌, ◌++◌, if◌then◌else◌,
  if_cases, arith,
}
use my.Base.Failure.{Code, transport_error}
use my.Port.Settled.{count}
use my.Port.Window.{
  Op, create_session, clear_storage, sources, open_torrent, metadata, read, recover,
  prefetch_startup, background, stop_prefetch, prefetch, stats, clear, close_session, unknown,
  Stage, answering, opening, closing_all, Job, Call, replied, asked, created, deferred,
  closed_transport, cancelled_transport, aborted_job, prefetch_reported, storage_cleared,
  port_closed, Event, request, Window, emit, has_session, delete_session, reply, wait, close_each,
  create_for, dispatch, execute_for, execute, find_job, drop_job,
}

-- The requests that have been answered, those that are executed, and those of some events.
abbrev pub answered : List Call → List ℕ
answered [] = []
answered (replied id failed ∷ cs) = id ∷ answered cs
answered (_ ∷ cs) = answered cs

abbrev pub executed : List Job → List ℕ
executed [] = []
executed (j ∷ js) = j.id ∷ executed js

abbrev pub requested : List Event → List ℕ
requested [] = []
requested (request id op s f ∷ es) = id ∷ requested es
requested (_ ∷ es) = requested es

pub count-answered :
    (i : ℕ) (cs ds : List Call)
    → count i (answered (cs ++ ds)) ≡ count i (answered cs) + count i (answered ds)
count-answered i [] ds = omega arith
count-answered i (replied id f ∷ cs) ds = omega (arith, count-answered i cs ds)
count-answered i (asked s op id ∷ cs) ds = count-answered i cs ds
count-answered i (created s ∷ cs) ds = count-answered i cs ds
count-answered i (deferred s ∷ cs) ds = count-answered i cs ds
count-answered i (closed_transport s ∷ cs) ds = count-answered i cs ds
count-answered i (cancelled_transport s ∷ cs) ds = count-answered i cs ds
count-answered i (aborted_job id ∷ cs) ds = count-answered i cs ds
count-answered i (prefetch_reported s c ∷ cs) ds = count-answered i cs ds
count-answered i (storage_cleared ∷ cs) ds = count-answered i cs ds
count-answered i (port_closed ∷ cs) ds = count-answered i cs ds

count-executed :
    (i : ℕ) (js ks : List Job)
    → count i (executed (js ++ ks)) ≡ count i (executed js) + count i (executed ks)
count-executed i [] ks = omega arith
count-executed i (j ∷ js) ks = omega (arith, count-executed i js ks)

-- How often `i` stands among the requests answered and executed.
abbrev total : ℕ → List Call → List Job → ℕ
total i cs js = count i (answered cs) + count i (executed js)

-- From `w` to `k` the requests `new` have come in.
pub record Adds (new : List ℕ) (w k : Window) : Type 0 where
  pub total_eq : (i : ℕ) → total i k.calls k.jobs ≡ total i w.calls w.jobs + count i new
  pub closed_eq : k.closed ≡ w.closed

pub Adds_refl : (w : Window) → Adds [] w w
Adds_refl w = record { total_eq = λ i. omega arith; closed_eq = refl }

-- More calls that answer nothing, and other sessions, before.
pub after :
    (new : List ℕ) (cs : List Call) (ss : List ℕ) (w k : Window)
    → ((i : ℕ) → count i (answered cs) ≡ 0)
    → Adds new (record w { calls = w.calls ++ cs; sessions = ss }) k
    → Adds new w k
after new cs ss w k q h = record {
  total_eq = λ i. omega (arith, h.total_eq i, count-answered i w.calls cs, q i);
  closed_eq = h.closed_eq;
}

pub calm :
    (cs : List Call) (ss : List ℕ) (w : Window)
    → ((i : ℕ) → count i (answered cs) ≡ 0)
    → Adds [] w (record w { calls = w.calls ++ cs; sessions = ss })
calm cs ss w q = after [] cs ss w _ q (Adds_refl _)

pub reply-Adds :
    (id : ℕ) (f : Option Code) (w : Window) → w.closed ≡ false → Adds (id ∷ []) w (reply id f w)
unfolding reply
reply-Adds id f w o =
    if_cases (Adds (id ∷ []) w) w.closed _ _ (λ e. cc)
      (λ _. record {
        total_eq = λ i. omega (arith, count-answered i w.calls (replied id f ∷ []));
        closed_eq = refl;
      })

pub wait-Adds : (s : Stage) (id : ℕ) (w : Window) → Adds (id ∷ []) w (wait s id w)
unfolding wait
wait-Adds s id w = record {
  total_eq = λ i.
      omega (arith, count-executed i w.jobs (record { id = id; aborted = false; stage = s } ∷ []));
  closed_eq = refl;
}

close_each-silent : (i : ℕ) (ss : List ℕ) → count i (answered (close_each ss)) ≡ 0
unfolding close_each
close_each-silent i [] = refl
close_each-silent i (s ∷ ss) = close_each-silent i ss

module _ (id s : ℕ) (f : Option Code) (w : Window) (o : w.closed ≡ false) where
  create_for-Adds : (p : Bool) (e : Option Code) → Adds (id ∷ []) w (create_for p id s e w)
  unfolding create_for
  create_for-Adds p (some c) = reply-Adds id _ w o
  create_for-Adds true none =
      if_cases (Adds (id ∷ []) w) (has_session s w.sessions) _ _
        (λ _. reply-Adds id (some transport_error) w o)
        (λ _.
          after (id ∷ []) (created s ∷ []) (w.sessions ++ s ∷ []) w _ (λ i. refl)
            (after (id ∷ []) (deferred s ∷ []) (w.sessions ++ s ∷ []) _ _ (λ i. refl)
              (reply-Adds id none _ o)))
  create_for-Adds false none =
      if_cases (Adds (id ∷ []) w) (has_session s w.sessions) _ _
        (λ _. reply-Adds id (some transport_error) w o)
        (λ _.
          after (id ∷ []) (created s ∷ []) (w.sessions ++ s ∷ []) w _ (λ i. refl)
            (reply-Adds id none _ o))

  -- A method of the transport is called, and its answer is waited for or sent.
  asked-wait : (op : Op) (g : Stage) → Adds (id ∷ []) w (wait g id (emit (asked s op id) w))
  asked-wait op g =
      after (id ∷ []) (asked s op id ∷ []) w.sessions w _ (λ i. refl) (wait-Adds g id _)

  asked-reply : (op : Op) (e : Option Code) → Adds (id ∷ []) w (reply id e (emit (asked s op id) w))
  asked-reply op e =
      after (id ∷ []) (asked s op id ∷ []) w.sessions w _ (λ i. refl) (reply-Adds id e _ o)

  dispatch-Adds : (op : Op) → Adds (id ∷ []) w (dispatch op id s f w)
  unfolding dispatch
  dispatch-Adds sources = asked-reply sources f
  dispatch-Adds background = asked-reply background f
  dispatch-Adds stats = asked-reply stats f
  dispatch-Adds prefetch = asked-reply prefetch none
  dispatch-Adds metadata = asked-wait metadata opening
  dispatch-Adds close_session =
      after (id ∷ []) (closed_transport s ∷ []) (delete_session s w.sessions) w _ (λ i. refl)
        (wait-Adds answering id _)
  dispatch-Adds unknown = reply-Adds id (some transport_error) w o
  dispatch-Adds clear_storage = asked-wait clear_storage answering
  dispatch-Adds (create_session p) = asked-wait (create_session p) answering
  dispatch-Adds open_torrent = asked-wait open_torrent answering
  dispatch-Adds read = asked-wait read answering
  dispatch-Adds recover = asked-wait recover answering
  dispatch-Adds prefetch_startup = asked-wait prefetch_startup answering
  dispatch-Adds stop_prefetch = asked-wait stop_prefetch answering
  dispatch-Adds clear = asked-wait clear answering

  -- The operations that want their session.
  found :
      (op : Op)
      → Adds (id ∷ []) w (
          if has_session s w.sessions
          then dispatch op id s f w
          else reply id (some transport_error) w)
  found op =
      if_cases (Adds (id ∷ []) w) (has_session s w.sessions) _ _ (λ _. dispatch-Adds op)
        (λ _. reply-Adds id (some transport_error) w o)

  execute_for-Adds : (op : Op) → Adds (id ∷ []) w (execute_for op id s f w)
  unfolding execute_for
  execute_for-Adds clear_storage =
      after (id ∷ []) (close_each w.sessions) w.sessions w _ (λ i. close_each-silent i w.sessions)
        (wait-Adds closing_all id _)
  execute_for-Adds (create_session p) = create_for-Adds p f
  execute_for-Adds sources = found sources
  execute_for-Adds background = found background
  execute_for-Adds stats = found stats
  execute_for-Adds prefetch = found prefetch
  execute_for-Adds metadata = found metadata
  execute_for-Adds close_session = found close_session
  execute_for-Adds unknown = found unknown
  execute_for-Adds open_torrent = found open_torrent
  execute_for-Adds read = found read
  execute_for-Adds recover = found recover
  execute_for-Adds prefetch_startup = found prefetch_startup
  execute_for-Adds stop_prefetch = found stop_prefetch
  execute_for-Adds clear = found clear

pub execute-Adds :
    (op : Op) (id : ℕ) (s : Option ℕ) (f : Option Code) (w : Window)
    → w.closed ≡ false
    → Adds (id ∷ []) w (execute op id s f w)
unfolding execute
execute-Adds op id none f w o = reply-Adds id (some transport_error) w o
execute-Adds op id (some s) f w o = execute_for-Adds id s f w o op

pub count-drop :
    (i id : ℕ) (js : List Job) (j : Job)
    → find_job id js ≡ some j
    → count i (executed js) ≡ count i (executed (drop_job j.id js)) + count i (j.id ∷ [])
unfolding find_job drop_job
count-drop i id [] j e = cc
count-drop i id (k ∷ js) j e = ground (arith, count-drop i id js j)
