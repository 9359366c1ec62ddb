-- ===== src/Net/Poller/Tests.antt =====
-- Runs of the poller, and the theorems at concrete tables.
use mathlib.Core.Option
use czy_net_frame.Common.{
  ℕ, ◌≡◌, refl, ◌≢◌, ◌↔◌, ◌⊎◌, inl, inr, true, false, Option, none, some, [], ◌∷◌, arith, ◌==◌,
  Bool-cases, done, assert_failed, update,
}
use czy_net_frame.Net.Channel.{
  Channel, Callback, new, deleted, added, error, read, write, close, IsOpen, has_event, pollerr,
  pollin, pollout, handle_event, handle_event_calls,
}
use czy_net_frame.Net.Poller.{ctl_add, ctl_del, Poller, change_events, remove}
use czy_net_frame.Net.Poller.Kernel.{InSync}
use czy_net_frame.Net.Poller.Changes.{IsReady, change_events-InSync}
use czy_net_frame.Net.Poller.Removal.{remove_cases}

abbrev pub reader : Channel
reader = record {
  fd = 5;
  events = 3;
  revents = 0;
  index = added;
  has_read_cb = true;
  has_write_cb = true;
  has_close_cb = true;
  has_err_cb = true;
  added_to_loop = true;
  tied = true;
}

abbrev quiet : Channel
quiet = record reader { events = 0 }

-- Channel 1 is watched on descriptor 5; every other channel is new on descriptor 6.
abbrev pub table : Channel → Poller
table ch = record {
  by_fd = update (λ fd. none) 5 (some 1);
  channels = update (λ c. record ch { fd = 6; index = new }) 1 ch;
  calls = record { op = ctl_add; fd = 5; events = ch.events } ∷ [];
}

pub table-InSync : (ch : Channel) → ch.fd ≡ 5 → ch.index ≡ added → InSync (table ch)
unfolding Option.bind
table-InSync ch e i = record {
  watched = update (λ fd. none) 5 (some ch.events);
  no_failure = refl;
  agrees = λ fd. elim (Bool-cases (fd == 5)) [ inl y ↦ rw y (rw i) | inr n ↦ rw n ];
  entry_fd = λ fd c h. ground (arith, h, e);
  entry_old = λ fd c h n. ground (arith, h, i, n);
}

change_events-InSync_example :
    (q : Poller) × (change_events (table reader) 1 0 ≡ done q)
    × InSync q
    × IsReady q 1
    × ((q.channels 1).events ≡ 0)
    × ((q.channels 1).index ≡ deleted)
    × ((d : ℕ) → d ≢ 1 → q.channels d ≡ (table reader).channels d)
    × (q.calls ≡ record { op = ctl_del; fd = 5; events = 0 } ∷ (table reader).calls)
change_events-InSync_example =
    change_events-InSync (table reader) 1 0 (table-InSync reader refl refl) refl

remove_cases_example :
    (◌≡◌ {A = ℕ} 0 0
      → added ≡ added
      → (q : Poller) × (remove (table quiet) 1 ≡ done q)
        × InSync q
        × (q.by_fd 5 ≡ none)
        × ((events : ℕ) → change_events q 1 events ≡ assert_failed))
    × ((◌≢◌ {A = ℕ} 0 0) ⊎ (added ≢ added) → remove (table quiet) 1 ≡ assert_failed)
remove_cases_example = remove_cases (table quiet) 1 (table-InSync quiet refl refl) refl

-- A readable and writable channel.
abbrev ready_channel : Channel
ready_channel = record reader { revents = 5 }

handle_event_calls_example :
    (r : Option Callback) × (handle_event true ready_channel ≡ done r)
    × ((r ≡ some error)
        ↔ (IsOpen true ready_channel × (has_event 5 pollerr ≡ true) × (true ≡ true)))
    × ((r ≡ some read)
        ↔ (IsOpen true ready_channel × (has_event 5 pollerr ≡ false) × (has_event 5 pollin ≡ true)))
    × ((r ≡ some write) ↔ (
        IsOpen true ready_channel
        × (has_event 5 pollerr ≡ false)
        × (has_event 5 pollin ≡ false)
        × (has_event 5 pollout ≡ true)
        × (true ≡ true)))
    × (r ≢ some close)
handle_event_calls_example = handle_event_calls true ready_channel refl
