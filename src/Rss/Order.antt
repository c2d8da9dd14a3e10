-- ===== src/Rss/Order.antt =====
-- The order of a feed's events (sortEvents in internal/rss/rss.go).
use status_dashboard_backend.Common.{
  ◌+◌, ◌≡◌, refl, ◌∙◌, arith, Bool, true, not, List, [], ◌∷◌, ◌++◌, keep, length, length-append,
  All, Bool-cases, inl, inr, sort_desc, IsDescending, All-sort_desc, length-sort_desc,
  sort-IsDescending,
}
use status_dashboard_backend.Model.{Incident}
use status_dashboard_backend.Rss.{is_open, started, finished, sort_events}

all_kept :
    (p : Incident → Bool) (incs : List Incident)
    → All (λ (inc : Incident). p inc ≡ true) (keep p incs)
all_kept p [] = tt
all_kept p (inc ∷ incs) = elim (Bool-cases (p inc)) [
  | inl e ↦ rw e (e, all_kept p incs)
  | inr e ↦ rw e (all_kept p incs)
]

split_length :
    (p : Incident → Bool) (incs : List Incident)
    → length (keep p incs) + length (keep (λ (inc : Incident). not (p inc)) incs) ≡ length incs
split_length p [] = refl
split_length p (inc ∷ incs) = ground (arith, split_length p incs)

-- The open events first, the last started in front, and then the closed ones, the last ended in front.
pub record IsOrdered (incs sorted : List Incident) : Type 0 where
  pub open_events : List Incident
  pub closed_events : List Incident
  pub parts : sorted ≡ open_events ++ closed_events
  pub all_open : All (λ (inc : Incident). is_open inc ≡ true) open_events
  pub all_closed : All (λ (inc : Incident). not (is_open inc) ≡ true) closed_events
  pub last_started_first : IsDescending started open_events
  pub last_ended_first : IsDescending finished closed_events
  pub none_lost : length sorted ≡ length incs

-- A feed has all its events, the open ones before the closed ones, each group the latest first.
pub sort_events-IsOrdered : (incs : List Incident) → IsOrdered incs (sort_events incs)
unfolding sort_events
sort_events-IsOrdered incs =
    let opened = keep is_open incs in
    let closed = keep (λ (inc : Incident). not (is_open inc)) incs in
    record {
      open_events = sort_desc started opened;
      closed_events = sort_desc finished closed;
      parts = refl;
      all_open =
          All-sort_desc started (λ (inc : Incident). is_open inc ≡ true) opened
            (all_kept is_open incs);
      all_closed =
          All-sort_desc finished (λ (inc : Incident). not (is_open inc) ≡ true) closed
            (all_kept (λ (inc : Incident). not (is_open inc)) incs);
      last_started_first = sort-IsDescending started opened;
      last_ended_first = sort-IsDescending finished closed;
      none_lost =
          length-append (sort_desc started opened) (sort_desc finished closed)
          ∙ omega (
            arith,
            length-sort_desc started opened,
            length-sort_desc finished closed,
            split_length is_open incs,
          );
    }
