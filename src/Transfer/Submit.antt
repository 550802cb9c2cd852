-- ===== src/Transfer/Submit.antt =====
-- The jobs that a transfer makes.
use mathlib.Core.List.{reverse-append, append-nil, append_assoc}
use volum.Base.{
  if◌then◌else◌, or_else, if_cases, length, get_elem?, filter, all, length-append, length-map, Text,
  codes, is_empty, is_space, drop_while, drop_end_while, trim, split, split_at, ℕ, zero, suc, ◌+◌,
  ◌*◌, ◌≡◌, refl, sym, ap, ap₂, ◌∙◌, Bool, true, false, not, none, some, List, [], ◌∷◌, ◌++◌, map,
  reverse, arith,
}
use volum.Entries.{FileEntry}
use volum.Paths.{slash, is_slash, join_path}
use volum.Transfer.{
  Mode, TransferDialog, JobRequest, Transfers, is_move, destinations_of, job_request, job_requests,
  create_jobs, handle_transfer_submit, after_jobs,
}

product_step : (n m a b : ℕ) → a ≡ m → b ≡ n * m → a + b ≡ suc n * m
product_step n m a b h k = let e : a + b ≡ m + n * m = ap₂ (λ x y. x + y) h k in e ∙ omega arith

row : (i n k : ℕ) → suc i * n + k ≡ n + (i * n + k)
row i n k = omega arith

some_place :
    (ds : List Text) (k : ℕ) (dest : Text) → get_elem? ds k ≡ some dest → is_empty ds ≡ false
some_place [] k dest h = absurd (cc)
some_place (d ∷ ds) k dest h = refl

length-job_requests :
    (dialog : TransferDialog) (policy : Text) (ds : List Text) (es : List FileEntry)
    → length (job_requests dialog policy ds es) ≡ length es * length ds
length-job_requests dialog policy ds [] = omega arith
length-job_requests dialog policy ds (e ∷ es) =
    length-append (map (job_request dialog policy e) ds) (job_requests dialog policy ds es)
    ∙ product_step (length es) (length ds) (length (map (job_request dialog policy e) ds))
        (length (job_requests dialog policy ds es)) (length-map (job_request dialog policy e) ds)
        (length-job_requests dialog policy ds es)

-- What was sent: all the requests if each was taken, else those up to the first that was not.
create_jobs_of_all :
    (server : JobRequest → Bool) (rs : List JobRequest) → (create_jobs server rs).1 ≡ all server rs
unfolding create_jobs
create_jobs_of_all server [] = refl
create_jobs_of_all server (r ∷ rs) = ground (arith, create_jobs_of_all server rs)

create_jobs-sent :
    (server : JobRequest → Bool) (rs : List JobRequest)
    → all server rs ≡ true
    → (create_jobs server rs).0 ≡ rs
unfolding create_jobs
create_jobs-sent server [] h = refl
create_jobs-sent server (r ∷ rs) h =
    if_cases {A = List JobRequest × Bool} (λ x. x.0 ≡ r ∷ rs) (server r)
      (λ e. ap (λ t. r ∷ t) (create_jobs-sent server rs (ground (arith, h))))
      (λ e. absurd (ground (arith, h, e)))

after_jobs_lem :
    (mode : Mode) (s : Transfers)
    → (Transfers.transfer_dialog (after_jobs mode true s) ≡ s.transfer_dialog)
      × (Transfers.file_clipboard (after_jobs mode true s)
          ≡ (if is_move mode then none else s.file_clipboard))
after_jobs_lem Mode.copy s = (refl, refl)
after_jobs_lem Mode.move s = (refl, refl)

get_elem?-map_append :
    (f : Text → JobRequest) (ds : List Text) (rs : List JobRequest) (k : ℕ) (dest : Text)
    → get_elem? ds k ≡ some dest
    → get_elem? (map f ds ++ rs) k ≡ some (f dest)
get_elem?-map_append f [] rs k dest h = absurd (cc)
get_elem?-map_append f (d ∷ ds) rs zero dest h = ap (λ o. some (f (or_else o d))) h
get_elem?-map_append f (d ∷ ds) rs (suc k) dest h = get_elem?-map_append f ds rs k dest h

get_elem?-past_map :
    (f : Text → JobRequest) (ds : List Text) (rs : List JobRequest) (m : ℕ)
    → get_elem? (map f ds ++ rs) (length ds + m) ≡ get_elem? rs m
get_elem?-past_map f [] rs m = let none_before : 0 + m ≡ m = omega arith in rw none_before refl
get_elem?-past_map f (d ∷ ds) rs m =
    let next : length (d ∷ ds) + m ≡ suc (length ds + m) = omega arith in
    rw next (get_elem?-past_map f ds rs m)

get_elem?-job_requests :
    (dialog : TransferDialog) (policy : Text) (ds : List Text) (es : List FileEntry) (i k : ℕ)
    (e : FileEntry) (dest : Text)
    → get_elem? es i ≡ some e
    → get_elem? ds k ≡ some dest
    → get_elem? (job_requests dialog policy ds es) (i * length ds + k)
      ≡ some (job_request dialog policy e dest)
get_elem?-job_requests dialog policy ds [] i k e dest h g = absurd (cc)
get_elem?-job_requests dialog policy ds (x ∷ es) zero k e dest h g =
    let same : x ≡ e = ap (λ o. or_else o x) h in
    ap (λ n. get_elem? (job_requests dialog policy ds (x ∷ es)) n) (omega arith)
    ∙ get_elem?-map_append (job_request dialog policy x) ds (job_requests dialog policy ds es) k
        dest g
    ∙ ap (λ y. some (job_request dialog policy y dest)) same
get_elem?-job_requests dialog policy ds (x ∷ es) (suc i) k e dest h g =
    ap (λ n. get_elem? (job_requests dialog policy ds (x ∷ es)) n) (row i (length ds) k)
    ∙ get_elem?-past_map (job_request dialog policy x) ds (job_requests dialog policy ds es)
        (i * length ds + k)
    ∙ get_elem?-job_requests dialog policy ds es i k e dest h g

-- A transfer with at least one destination, all of whose jobs are taken: the job for an entry and a
-- destination is sent, with the entry's path as its source and the destination's with the entry's name
-- as its target, at the place that belongs to both, entry after entry; there is no other one. The
-- dialog is closed, and the clipboard is emptied if it moves.
pub handle_transfer_submit-sent :
    (server : JobRequest → Bool) (dialog : TransferDialog) (value policy : Text) (s : Transfers)
    (i k : ℕ) (e : FileEntry) (dest : Text)
    → all server (job_requests dialog policy (destinations_of value) dialog.entries) ≡ true
    → get_elem? dialog.entries i ≡ some e
    → get_elem? (destinations_of value) k ≡ some dest
    → let r = handle_transfer_submit server (some dialog) value policy s in
      (get_elem? r.0 (i * length (destinations_of value) + k)
        ≡ some (record {
          mode = dialog.mode;
          source_path = e.path;
          destination_path = join_path dest e.name;
          conflict_policy = policy;
          verify_mode = codes "size";
        }))
      × (length r.0 ≡ length dialog.entries * length (destinations_of value))
      × (Transfers.transfer_dialog r.2 ≡ none)
      × (Transfers.file_clipboard r.2 ≡ (if is_move dialog.mode then none else s.file_clipboard))
unfolding handle_transfer_submit
handle_transfer_submit-sent server dialog value policy s i k e dest taken entry place =
    let ds = destinations_of value in
    let rs = job_requests dialog policy ds dialog.entries in
    let sent = create_jobs-sent server rs taken in
    let done = create_jobs_of_all server rs ∙ taken in
    let closed = after_jobs_lem dialog.mode (record s { transfer_dialog = none }) in
    rw (some_place ds k dest place, done)
      (
        ap (λ t. get_elem? t (i * length ds + k)) sent
            ∙ get_elem?-job_requests dialog policy ds dialog.entries i k e dest entry place,
        ap (λ t. length t) sent ∙ length-job_requests dialog policy ds dialog.entries,
        closed.0,
        closed.1,
      )

-- A text of slashes.
abbrev pub slashes : ℕ → Text
slashes zero = []
slashes (suc n) = slash ∷ slashes n

slashes-concat : (n : ℕ) → slashes n ++ slash ∷ [] ≡ slash ∷ slashes n
slashes-concat zero = refl
slashes-concat (suc n) = ap (λ t. slash ∷ t) (slashes-concat n)

reverse-slashes : (n : ℕ) → reverse (slashes n) ≡ slashes n
reverse-slashes zero = refl
reverse-slashes (suc n) =
    reverse-append (slash ∷ []) (slashes n)
    ∙ ap (λ t. t ++ slash ∷ []) (reverse-slashes n)
    ∙ slashes-concat n

drop_while-slashes : (n : ℕ) → drop_while is_slash (slashes n) ≡ []
unfolding drop_while
drop_while-slashes zero = refl
drop_while-slashes (suc n) = drop_while-slashes n

drop_spaces-slashes : (n : ℕ) → drop_while is_space (slashes n) ≡ slashes n
unfolding drop_while is_space
drop_spaces-slashes zero = refl
drop_spaces-slashes (suc n) = refl

pub trim-slashes : (n : ℕ) → trim (slashes n) ≡ slashes n
unfolding trim drop_end_while
trim-slashes n =
    rw (drop_spaces-slashes n, reverse-slashes n, drop_spaces-slashes n) (reverse-slashes n)

drop_end_while-slashes : (n : ℕ) → drop_end_while is_slash (slashes n) ≡ []
unfolding drop_end_while
drop_end_while-slashes n = rw (reverse-slashes n, drop_while-slashes n) refl

pub split_at-slashes :
    (cur : Text) (n : ℕ) → split_at b'|' cur (slashes n) ≡ (cur ++ slashes n) ∷ []
split_at-slashes cur zero = ap (λ t. t ∷ []) (sym (append-nil cur))
split_at-slashes cur (suc n) =
    split_at-slashes (cur ++ slash ∷ []) n
    ∙ ap (λ t. t ∷ []) (append_assoc cur (slash ∷ []) (slashes n))

pub destinations_of-slashes : (n : ℕ) → destinations_of (slashes n) ≡ []
unfolding destinations_of split
destinations_of-slashes n =
    ap (λ parts. filter (λ s. not (is_empty s)) (map (λ s. drop_end_while is_slash (trim s)) parts))
      (split_at-slashes [] n)
    ∙ rw (trim-slashes n, drop_end_while-slashes n) refl

-- A transfer to a destination of slashes alone, such as the root, sends nothing and changes
-- nothing: the dialog stays open.
pub handle_transfer_submit-slashes :
    (server : JobRequest → Bool) (dialog : TransferDialog) (n : ℕ) (policy : Text) (s : Transfers)
    → handle_transfer_submit server (some dialog) (slashes n) policy s ≡ ([], none, s)
unfolding handle_transfer_submit
handle_transfer_submit-slashes server dialog n policy s = rw (destinations_of-slashes n) refl
