-- ===== src/Io/FileProxy/History.antt =====
-- A proxy of rust_io/file_proxy.rs answers from one history of its file.
use rust_base.Base.{
  ℕ, ◌+◌, ◌≡◌, refl, ap, inl, inr, Bool, true, false, Option, none, some, List, [], ◌∷◌, ltb,
  if◌then◌else◌, arith, All, All-map, All-append, subst,
}
use rust_base.Pool.Schedule.{extract}
use rust_base.Pool.InRange.Step.{Extracted, extract-Extracted}
use rust_base.Io.FileProxy.{
  Op, Reply, System, Done, perform, Proxy, new, ask, run_posted, call, Event, asks, runs, calls,
  step, run,
}
use rust_base.Io.FileProxy.Places.{In, times, times-append, Removed, extract-Removed}
use rust_base.Io.FileProxy.Spec.{Does, perform-Does}

-- What was performed, the last one first, leads from one content of the file to another, each operation
-- from what the one before it left.
abbrev pub Leads : Option (List ℕ) → List (ℕ × Done) → Option (List ℕ) → Type 0
Leads file [] now = now ≡ file
Leads file ((cb, d) ∷ ds) now =
    (now ≡ d.after) × Does d.op d.before d.reply d.after × Leads file ds d.before

-- The reply that an operation of the history gave to that callback.
abbrev pub Given : List (ℕ × Done) → ℕ × Reply → Type 0
Given ds r = (d : Done) × In (r.0, d) ds × (r.1 ≡ d.reply)

pub record Explained (file : Option (List ℕ)) (p : Proxy) : Type 0 where
  pub leads : Leads file p.performed p.file
  pub waiting : All (λ a. In a p.asked) p.posted
  pub own : All (λ d. In (d.0, d.1.op) p.asked) p.performed
  pub given : All (Given p.performed) p.called
  pub to_give : All (Given p.performed) p.replies
  pub placed :
      (cb : ℕ)
      → times cb p.refused_ops
          + times cb p.posted
          + times cb p.lost
          + times cb p.replies
          + times cb p.called
        ≡ (if ltb cb p.next then 1 else 0)
  pub once :
      (cb : ℕ) → times cb p.performed ≡ times cb p.lost + times cb p.replies + times cb p.called

Given-later : (ds : List (ℕ × Done)) (e : ℕ × Done) (r : ℕ × Reply) → Given ds r → Given (e ∷ ds) r
Given-later ds e r (d, i, same) = (d, inr i, same)

module _ (file : Option (List ℕ)) (p : Proxy) (x : Explained file p) where
  ask-Explained : (accepted : Bool) (op : Op) → Explained file (ask accepted op p)
  unfolding ask
  ask-Explained true op = record {
    leads = x.leads;
    waiting =
        All-append (λ a. In a ((p.next, op) ∷ p.asked)) p.posted ((p.next, op) ∷ [])
          (All-map (λ a. In a p.asked) (λ a. In a ((p.next, op) ∷ p.asked)) (λ a i. inr i) p.posted
            x.waiting)
          (inl refl, tt);
    own =
        All-map (λ d. In (d.0, d.1.op) p.asked) (λ d. In (d.0, d.1.op) ((p.next, op) ∷ p.asked))
          (λ d i. inr i) p.performed x.own;
    given = x.given;
    to_give = x.to_give;
    placed = λ cb. ground (arith, x.placed cb, times-append cb p.posted ((p.next, op) ∷ []));
    once = x.once;
  }
  ask-Explained false op = record {
    leads = x.leads;
    waiting =
        All-map (λ a. In a p.asked) (λ a. In a ((p.next, op) ∷ p.asked)) (λ a i. inr i) p.posted
          x.waiting;
    own =
        All-map (λ d. In (d.0, d.1.op) p.asked) (λ d. In (d.0, d.1.op) ((p.next, op) ∷ p.asked))
          (λ d i. inr i) p.performed x.own;
    given = x.given;
    to_give = x.to_give;
    placed = λ cb. ground (arith, x.placed cb);
    once = x.once;
  }

  run_posted-Explained :
      (system : System) (accepted : Bool) (r : Option ((ℕ × Op) × List (ℕ × Op)))
      → Removed p.posted r
      → Extracted (λ a. In a p.asked) r
      → Explained file (run_posted system accepted r p)
  unfolding run_posted
  run_posted-Explained system accepted none k e = x
  run_posted-Explained system accepted (some ((cb, op), posted)) k e = performed accepted
    where
      entry : ℕ × Done
      entry = (
        cb,
        record {
          op = op;
          before = p.file;
          reply = (perform system op p.file).0;
          after = (perform system op p.file).1;
        },
      )

      leads_on : Leads file (entry ∷ p.performed) (perform system op p.file).1
      leads_on = (refl, perform-Does system op p.file, x.leads)

      own_too : All (λ d. In (d.0, d.1.op) p.asked) (entry ∷ p.performed)
      own_too = (e.0, x.own)

      still :
          (rs : List (ℕ × Reply))
          → All (Given p.performed) rs
          → All (Given (entry ∷ p.performed)) rs
      still rs =
          All-map (Given p.performed) (Given (entry ∷ p.performed)) (Given-later p.performed entry)
            rs

      performed : (b : Bool) → Explained file (run_posted system b (some ((cb, op), posted)) p)
      performed true = record {
        leads = leads_on;
        waiting = e.1;
        own = own_too;
        given = still p.called x.given;
        to_give =
            All-append (Given (entry ∷ p.performed)) p.replies
              ((cb, (perform system op p.file).0) ∷ []) (still p.replies x.to_give)
              ((entry.1, inl refl, refl), tt);
        placed = λ i. omega (
          arith,
          x.placed i,
          k i,
          times-append i p.replies ((cb, (perform system op p.file).0) ∷ []),
        );
        once = λ i.
            omega
              (arith, x.once i, times-append i p.replies ((cb, (perform system op p.file).0) ∷ []));
      }
      performed false = record {
        leads = leads_on;
        waiting = e.1;
        own = own_too;
        given = still p.called x.given;
        to_give = still p.replies x.to_give;
        placed = λ i. omega (arith, x.placed i, k i);
        once = λ i. omega (arith, x.once i);
      }

  call-Explained :
      (replies : List (ℕ × Reply)) → p.replies ≡ replies → Explained file (call replies p)
  unfolding call
  call-Explained [] e = x
  call-Explained (r ∷ replies) e =
      let to_give = subst (All (Given p.performed)) e x.to_give in
      record {
        leads = x.leads;
        waiting = x.waiting;
        own = x.own;
        given = All-append (Given p.performed) p.called (r ∷ []) x.given (to_give.0, tt);
        to_give = to_give.1;
        placed =
            λ cb. omega (arith, x.placed cb, ap (times cb) e, times-append cb p.called (r ∷ []));
        once = λ cb. omega (arith, x.once cb, ap (times cb) e, times-append cb p.called (r ∷ []));
      }

  step-Explained : (e : Event) → Explained file (step e p)
  unfolding step
  step-Explained (asks accepted op) = ask-Explained accepted op
  step-Explained (runs n system accepted) =
      run_posted-Explained system accepted (extract n p.posted) (extract-Removed n p.posted)
        (extract-Extracted (λ a. In a p.asked) n p.posted x.waiting)
  step-Explained calls = call-Explained p.replies refl

after-Explained :
    (file : Option (List ℕ)) (es : List Event) (p : Proxy)
    → Explained file p
    → Explained file (run es p)
unfolding run
after-Explained file [] p x = x
after-Explained file (e ∷ es) p x = after-Explained file es (step e p) (step-Explained file p x e)

-- However its callers, the runner and the IO thread interleave, in whatever order the runner takes its
-- closures, each whole, and whatever posts the two refuse, a proxy of a file that nothing else changes
-- answers from one history of it. What was performed leads from the first content to the present one,
-- each operation from what the one before it left, and does what is asked of it: it reads the bytes that
-- are there, or writes, appends or replaces as many as it counts; or it fails, and then the file is as it
-- was, or a write or append has created it, or `write_all` has left the first bytes alone. Each was asked
-- for, with its callback. A callback that was called, or is about to be, has the reply that its own
-- operation gave. Each callback stands in one place only: refused with its closure, waiting, refused with
-- its reply, about to be called, or called; and its operation was performed exactly in the last three,
-- once.
pub run-Explained : (file : Option (List ℕ)) (es : List Event) → Explained file (run es (new file))
unfolding new
run-Explained file es = after-Explained file es (new file) (record {
  leads = refl;
  waiting = tt;
  own = tt;
  given = tt;
  to_give = tt;
  placed = λ cb. ground arith;
  once = λ cb. refl;
})
