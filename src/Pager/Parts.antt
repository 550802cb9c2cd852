-- ===== src/Pager/Parts.antt =====
-- The pages of the list of jobs, one after the other.
use volum.Base.{
  length, take, drop, length-take, length-drop, take-add, take_of_length-le, ℕ, zero, suc, ◌+◌, ◌-◌,
  ◌*◌, ◌≤◌, ◌≡◌, refl, sym, ◌∙◌, List, [], ◌++◌, arith,
}
use volum.Pager.{Job, page_size, total_pages, clamp_page, page_jobs}

-- The first pages, joined.
abbrev pub pages_up_to : List Job → ℕ → List Job
pages_up_to jobs zero = []
pages_up_to jobs (suc n) = pages_up_to jobs n ++ page_jobs jobs (suc n)

pages_up_to-take : (jobs : List Job) (n : ℕ) → pages_up_to jobs n ≡ take (n * page_size) jobs
unfolding page_jobs
pages_up_to-take jobs zero = refl
pages_up_to-take jobs (suc n) =
    let before : (suc n - 1) * page_size ≡ n * page_size = omega arith in
    let next : suc n * page_size ≡ n * page_size + page_size = omega arith in
    rw (pages_up_to-take jobs n, before, next) (sym (take-add (n * page_size) page_size jobs))

-- The pages, one after the other, hold each job once and in the order of the list.
pub pages_up_to-total_pages : (jobs : List Job) → pages_up_to jobs (total_pages jobs) ≡ jobs
unfolding total_pages
pages_up_to-total_pages jobs =
    pages_up_to-take jobs (total_pages jobs)
    ∙ take_of_length-le (total_pages jobs * page_size) jobs (omega arith)

total_pages-pos : (jobs : List Job) → 1 ≤ total_pages jobs
unfolding total_pages
total_pages-pos jobs = omega arith

page_jobs-not_empty :
    (jobs : List Job) (p : ℕ)
    → p ≤ total_pages jobs
    → 1 ≤ length jobs
    → 1 ≤ length (page_jobs jobs p)
unfolding total_pages page_jobs
page_jobs-not_empty jobs p h k =
    let start = (p - 1) * page_size in
    omega (arith, h, k, length-take page_size (drop start jobs), length-drop start jobs)

-- After the effect the current page is one of the pages, and shows some job unless there is none.
page_jobs-clamp_page :
    (jobs : List Job) (current_page : ℕ)
    → 1 ≤ current_page
    → 1 ≤ length jobs
    → (1 ≤ clamp_page jobs current_page)
      × (clamp_page jobs current_page ≤ total_pages jobs)
      × (1 ≤ length (page_jobs jobs (clamp_page jobs current_page)))
unfolding clamp_page
page_jobs-clamp_page jobs current_page h k =
    let some_page : 1 ≤ total_pages jobs = total_pages-pos jobs in
    let inside : clamp_page jobs current_page ≤ total_pages jobs = ground arith in
    (
      ground (arith, h, some_page),
      inside,
      page_jobs-not_empty jobs (clamp_page jobs current_page) inside k,
    )
