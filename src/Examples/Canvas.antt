-- ===== src/Examples/Canvas.antt =====
-- The laptop is moved on the canvas of the desk's shell.
use Prim.Native.String.{String}
use inputshare.Base.{
  ℕ, zero, suc, ◌==◌, ◌≡◌, refl, ap, none, some, [], pos, negsuc, arith, if◌then◌else◌,
}
use inputshare.Model.Query.{machine}
use inputshare.BTreeMap.{insert, get}
use inputshare.Model.Edits.{create, upsert_machine}
use inputshare.Agent.{record_in}
use inputshare.Shell.{Texts, card}
use inputshare.Shell.Commands.{ok, move_machine, placed}
use inputshare.Shell.Placing.{drop_lands}
use inputshare.Examples.{laptop, paired}
use inputshare.Examples.Files.{documents}
use inputshare.Examples.Desk.{desk_agent}

-- Ids as strokes.
abbrev pub strokes : ℕ → String
strokes zero = String.[]
strokes (suc n) = String.◌∷◌ "1" (strokes n)

abbrev pub count : String → ℕ
count String.[] = 0
count (String.◌∷◌ c s) = suc (count s)

pub count-strokes : (n : ℕ) → count (strokes n) ≡ n
count-strokes zero = refl
count-strokes (suc n) = ap suc (count-strokes n)

abbrev texts : Texts
texts = record {
  id_text = strokes;
  parse_id = λ s. some (count s);
  fingerprint = strokes;
  public_key = λ k. k;
  ip_text = strokes;
  addr_text = λ a. strokes a.ip;
  parse_addr = λ s. none;
  with_port = λ s port. s;
  trim = λ s. s;
  parse-id_text = λ id. ap some (count-strokes id);
}

drop_lands_example :
    (let r = move_machine texts documents none 2000 (strokes 2) (pos 300) (negsuc 39) desk_agent in
      let moved = placed (pos 300) (negsuc 39) laptop in
      (r.0 ≡ ok tt)
      × ((other : ℕ)
          → record_in r.1.doc other
            ≡ (if 2 == other then some moved else record_in desk_agent.doc other))
      × ((card texts 1 [] moved).x ≡ pos 300)
      × ((card texts 1 [] moved).y ≡ negsuc 39)
      × (moved ≡ record laptop { position = moved.position }))
unfolding machine create upsert_machine insert get
drop_lands_example =
    drop_lands texts documents none 2000 (pos 300) (negsuc 39) laptop desk_agent paired 1 [] refl
      refl (omega arith) (omega arith) (omega arith) (omega arith) (omega arith)
