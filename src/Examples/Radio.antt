-- ===== src/Examples/Radio.antt =====
-- Announcements of a machine with two interfaces and one address that was typed in.
use inputshare.Base.{true, false, Option, none, some, [], ◌∷◌, ◌≡◌, refl, Each}
use inputshare.Store.{Bytes}
use inputshare.Wire.{Announcement}
use inputshare.Discovery.{Interface, Target, v4, Announcer, has_address, announce}
use inputshare.Discovery.Reach.{IsReady}
use inputshare.Discovery.Everywhere.{IsSent, to_group, announced_everywhere}

abbrev wifi : Interface
wifi = record {
  name = "wifi";
  address = 3232235777;
  broadcast = some 3232236031;
  self_assigned = false;
}

abbrev virtual : Interface
virtual = record { name = "virtual"; address = 3232249857; broadcast = none; self_assigned = false }

abbrev words : Announcement
words = record {
  protocol = 1;
  machine_id = 1;
  identity_key = 11;
  display_name = "desk";
  workspace_id = some 7;
  transport_port = 47452;
  probe = false;
  invitations = [];
}

abbrev first_bytes : Announcement → Option Bytes
first_bytes n = some (n.machine_id ∷ [])

abbrev silent : Announcer
silent = record { senders = []; known = [] }

abbrev typed_in : Target
typed_in = v4 (record { ip = 3232235800; port = 47451 })

announced_everywhere_example :
    (let r =
        announce first_bytes (λ x. true) (wifi ∷ virtual ∷ []) words 47451 (typed_in ∷ []) silent in
      IsReady r.0
      × Each (λ i. IsSent (to_group 47451 (1 ∷ []) i.address) r.1) (wifi ∷ virtual ∷ [])
      × Each (λ d. has_address (wifi ∷ virtual ∷ []) d.out ≡ true) r.1)
announced_everywhere_example =
    announced_everywhere first_bytes (λ x. true) (wifi ∷ virtual ∷ []) words 47451 (typed_in ∷ [])
      silent (1 ∷ []) (λ x. refl) refl (record { covered = tt; within = tt })
