-- ===== src/Analyzer/Scan/Starts.antt =====
-- How often a scan is requested.
use volum.Base.{
  ◌&&◌, if_cases, Text, ℕ, suc, ◌+◌, ◌≤◌, ◌≡◌, refl, sym, ap, ◌∙◌, Bool, true, false, Option, List,
  arith,
}
use volum.Analyzer.Scan.{
  find_job, is_some, DiskScan, initial, start_scan, scan_started, open_analysis, reset_disk_scan,
  scan_feed, handle_toggle,
}
use volum.Jobs.{Job}
use volum.Jobs.Commands.{Answer}

-- The state, and how many calls of `createJob` wait for their answer.
pub record Session : Type 0 where
  pub scan : DiskScan
  pub waiting : ℕ

abbrev pub sent : Bool → ℕ
sent true = 1
sent false = 0

-- Starts, answers, resets, other analyses that are opened, events and toggles, in any order.
pub data Reach : Session → Type 0 where
  opened : (path : Option Text) → Reach (record { scan = initial path; waiting = 0 })
  started :
      {x : Session}
      → (can_manage : Bool) (path : Text) → Reach x
      → Reach (record {
        scan = (start_scan can_manage path x.scan).1;
        waiting = x.waiting + sent (start_scan can_manage path x.scan).0;
      })
  answer :
      {x : Session}
      → (a : Answer Text) (n : ℕ) → x.waiting ≡ suc n
      → Reach x
      → Reach (record { scan = scan_started a x.scan; waiting = n })
  analysis :
      {x : Session} → (job : Job) → Reach x → Reach (record x { scan = open_analysis job x.scan })
  reset : {x : Session} → Reach x → Reach (record x { scan = reset_disk_scan x.scan })
  feed :
      {x : Session}
      → (jobs : List Job) → Reach x
      → Reach (record x { scan = scan_feed jobs x.scan })
  toggle :
      {x : Session}
      → (path : Text) → Reach x
      → Reach (record x { scan = (handle_toggle path x.scan).1 })

record IsGuarded (x : Session) : Type 0 where
  single : x.waiting ≡ sent x.scan.starting_scan
  shown : x.scan.loading ≡ x.scan.starting_scan

start_scan-IsGuarded :
    (can_manage : Bool) (path : Text) (x : Session)
    → IsGuarded x
    → IsGuarded (record {
      scan = (start_scan can_manage path x.scan).1;
      waiting = x.waiting + sent (start_scan can_manage path x.scan).0;
    })
unfolding start_scan
start_scan-IsGuarded can_manage path x g = ground (arith, g)

scan_started-IsGuarded :
    (a : Answer Text) (n : ℕ) (x : Session)
    → x.waiting ≡ suc n
    → IsGuarded x
    → IsGuarded (record { scan = scan_started a x.scan; waiting = n })
unfolding scan_started
scan_started-IsGuarded (Answer.answered id) n x h g = ground (arith, g)
scan_started-IsGuarded (Answer.failed m) n x h g = ground (arith, g)

scan_feed-IsGuarded :
    (jobs : List Job) (x : Session)
    → IsGuarded x
    → IsGuarded (record x { scan = scan_feed jobs x.scan })
unfolding scan_feed
scan_feed-IsGuarded jobs x g =
    if_cases (λ s. IsGuarded (record x { scan = s }))
      (x.scan.awaiting_scan_feed && is_some (find_job jobs x.scan.current_job_id))
      {x = record x.scan { awaiting_scan_feed = false }} {y = x.scan}
      (λ _. record { single = g.single; shown = g.shown })
      (λ _. record { single = g.single; shown = g.shown })

open_analysis-IsGuarded :
    (job : Job) (x : Session)
    → IsGuarded x
    → IsGuarded (record x { scan = open_analysis job x.scan })
unfolding open_analysis
open_analysis-IsGuarded job x g = record { single = g.single; shown = g.shown }

reset_disk_scan-IsGuarded :
    (x : Session) → IsGuarded x → IsGuarded (record x { scan = reset_disk_scan x.scan })
unfolding reset_disk_scan
reset_disk_scan-IsGuarded x g = record { single = g.single; shown = g.shown }

handle_toggle-IsGuarded :
    (path : Text) (x : Session)
    → IsGuarded x
    → IsGuarded (record x { scan = (handle_toggle path x.scan).1 })
unfolding handle_toggle
handle_toggle-IsGuarded path x g = record { single = g.single; shown = g.shown }

Reach-IsGuarded : {x : Session} → Reach x → IsGuarded x
Reach-IsGuarded (Reach.opened path) = record { single = refl; shown = refl }
Reach-IsGuarded (Reach.started {x} can_manage path r) =
    start_scan-IsGuarded can_manage path x (Reach-IsGuarded r)
Reach-IsGuarded (Reach.answer {x} a n h r) = scan_started-IsGuarded a n x h (Reach-IsGuarded r)
Reach-IsGuarded (Reach.analysis {x} job r) = open_analysis-IsGuarded job x (Reach-IsGuarded r)
Reach-IsGuarded (Reach.reset {x} r) = reset_disk_scan-IsGuarded x (Reach-IsGuarded r)
Reach-IsGuarded (Reach.feed {x} jobs r) = scan_feed-IsGuarded jobs x (Reach-IsGuarded r)
Reach-IsGuarded (Reach.toggle {x} path r) = handle_toggle-IsGuarded path x (Reach-IsGuarded r)

sent-le : (n : ℕ) (b : Bool) → n ≡ sent b → n ≤ 1
sent-le n false h = omega (arith, h)
sent-le n true h = omega (arith, h)

-- At most one request for a scan waits for its answer, and one does exactly while the scan is
-- shown as starting.
pub Reach-single_start :
    {x : Session} → Reach x → (x.waiting ≤ 1) × (x.waiting ≡ sent x.scan.loading)
Reach-single_start {x} r =
    let g = Reach-IsGuarded r in
    (sent-le x.waiting x.scan.starting_scan g.single, g.single ∙ ap sent (sym g.shown))
