-- ===== src/Core/Instance/Closed.antt =====
-- core/core.go, CloseWithReason: what is left of the core.
use zicnode.Prelude.{
  ℕ, Bool, true, false, not, String, Option, none, some, List, [], ◌≡◌, refl, ap, ◌∙◌, string_key,
  ◌==◌, if◌then◌else◌,
}
use zicnode.Dispatcher.Log.{Fields}
use zicnode.Dispatcher.Link.{LinkEvent}
use zicnode.Dispatcher.Table.{DefaultDispatcher, active_link_count}
use zicnode.Dispatcher.Table.Drain.{IsValid, all_endings, close_all_managed_links-exact}
use zicnode.Core.Instance.{V2Core, links_of, emptied, without_server, Ending, close_with_reason}

-- The endings of all links of a dispatcher.
abbrev pub endings_of : Option DefaultDispatcher → List LinkEvent
endings_of none = []
endings_of (some d) = all_endings d.link_managers d.managers

abbrev pub links_in : Option DefaultDispatcher → ℕ
links_in none = 0
links_in (some d) = active_link_count d

-- The dispatcher of a core, if it has one, is well formed.
abbrev pub HasValid : Option DefaultDispatcher → Type 0
HasValid none = Unit
HasValid (some d) = IsValid d

pub record IsClosed (closes : Bool) (v : V2Core) (e : Ending) : Type 0 where
  pub events : e.events ≡ endings_of v.dispatcher
  pub drained : links_in e.dispatcher ≡ 0
  pub counted : links_of e.core ≡ 0
  pub config : e.core.config ≡ none
  pub let_go : e.core.dispatcher ≡ none
  pub server : e.core.server ≡ (if closes then none else v.server)

without_server-kept :
    (closes : Bool) (s : Option ℕ) (v : V2Core)
    → v.server ≡ s
    → let w = (without_server closes s v).1 in
      (w.config ≡ v.config)
      × (w.dispatcher ≡ v.dispatcher)
      × (w.server ≡ (if closes then none else s))
without_server-kept true none v h = (refl, refl, h)
without_server-kept false none v h = (refl, refl, h)
without_server-kept true (some s) v h = (refl, refl, refl)
without_server-kept false (some s) v h = (refl, refl, h)

emptied-exact :
    (reason : String) (fields : Fields) (o : Option DefaultDispatcher)
    → HasValid o
    → let r = emptied true reason fields o in (r.1 ≡ endings_of o) × (links_in r.0 ≡ 0)
emptied-exact reason fields none h = (refl, refl)
emptied-exact reason fields (some d) h =
    let e = close_all_managed_links-exact reason fields d h in (e.1, e.2)

unlinked : (v : V2Core) → v.dispatcher ≡ none → links_of v ≡ 0
unfolding links_of
unlinked v h = ap (λ o. elim o as (λ x. ℕ) [ none ↦ 0 | some d ↦ active_link_count d ]) h

-- Closing with a reason a core whose dispatcher, if there is one, is well formed: each managed link is
-- closed and interrupted once, no link is left in the dispatcher, and the core has no configuration, no
-- dispatcher and no link. It has no instance of the engine, but for one that did not close.
pub close_with_reason-IsClosed :
    (closes : Bool) (reason : String) (fields : Fields) (v : V2Core)
    → (reason == "") ≡ false
    → HasValid v.dispatcher
    → IsClosed closes v (close_with_reason closes reason fields v)
unfolding close_with_reason
close_with_reason-IsClosed closes reason fields v p h =
    let k =
      without_server-kept closes v.server
        (record v { config = none; has_inbounds = false; has_outbounds = false; dispatcher = none })
        refl in
    let e = emptied-exact reason fields v.dispatcher h in
    let q = ap (λ b. emptied (not b) reason fields v.dispatcher) p in
    record {
      events = ap (λ r. r.1) q ∙ e.0;
      drained = ap (λ r. links_in r.0) q ∙ e.1;
      counted = unlinked _ k.1;
      config = k.0;
      let_go = k.1;
      server = k.2;
    }
