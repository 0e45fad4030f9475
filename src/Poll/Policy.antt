-- ===== src/Poll/Policy.antt =====
-- Policies that make electoral registers: `ElectoralRegisterPolicy` of voteit/poll/abcs.py, the
-- receiver `cleanup_unused_ers` of voteit/poll/app/er_policies/auto_always.py, and what the policies
-- that need no groups say of their voters.
pub mod Made
pub mod Groups
pub mod Seats
pub mod Delegates
use voteit.Prelude.{
  ℕ, suc, ◌+◌, Bool, true, false, ◌&&◌, ◌||◌, not, Option, none, some, List, [], ◌∷◌, ◌==◌,
  if◌then◌else◌, get, nat_eq, keys, member, select, every, map,
}
use voteit.Poll.Register.{Register, Result, ok, err, set_voters_from_dict}

-- The meeting as a policy sees it. The registers stand newest first, and `in_use` has the primary
-- keys of those that polls have.
pub record Meeting : Type 0 where
  pub is_ongoing : Bool
  pub group_votes_active : Bool
  pub registers : List Register
  pub next_pk : ℕ
  pub in_use : List ℕ

-- A policy, with the voters that it names for the meeting as it is, none where that raises.
pub record Policy : Type 0 where
  pub name : ℕ
  pub allow_poll_er_change : Bool
  pub group_votes_active : Option Bool
  pub creates_before_poll : Bool
  pub get_voters : Option (List (ℕ × ℕ))

-- `AutoAlways.name`
abbrev pub auto_always : ℕ
auto_always = 3

pub data Failure : Type 0 where
  group_votes_mismatch no_voters_named register_not_writable : Failure

pub data Outcome (A : Type 0) : Type 0 where
  made : A → Outcome A
  failed : Failure → Outcome A

-- `meeting.latest_er`
abbrev pub latest : Meeting → Option Register
latest m = elim m.registers [ [] ↦ none | er ∷ _ ↦ some er ]

-- `a == b` of two dicts
abbrev same_value : Option ℕ → ℕ → Bool
same_value none v = false
same_value (some w) v = w == v

abbrev within : List (ℕ × ℕ) → List (ℕ × ℕ) → Bool
within [] b = true
within ((k, v) ∷ a) b = same_value (get k b) v && within a b

unfoldable pub dict_eq : List (ℕ × ℕ) → List (ℕ × ℕ) → Bool
dict_eq a b = within a b && within b a

abbrev pub is_nil {ℓ} : {A : Type ℓ} → List A → Bool
is_nil [] = true
is_nil (_ ∷ _) = false

abbrev needed_with : Policy → Option Register → Option Bool
needed_with p none =
    if p.allow_poll_er_change
    then some true
    else elim p.get_voters [ none ↦ none | some voters ↦ some (not (is_nil voters)) ]
needed_with p (some er) = elim p.get_voters [
  | none ↦ none
  | some voters ↦ some (not (dict_eq voters er.voter_data))
]

-- `new_er_needed`; none where `get_voters` raises
unfoldable pub new_er_needed : Policy → Meeting → Option Bool
unfolding dict_eq
new_er_needed p m = if m.is_ongoing then needed_with p (latest m) else some false

abbrev bool_eq : Bool → Bool → Bool
bool_eq true b = b
bool_eq false b = not b

abbrev compatible : Option Bool → Bool → Bool
compatible none active = true
compatible (some wanted) active = bool_eq wanted active

-- `cleanup_unused_ers`, after the register `er` was made
unfoldable pub cleanup_unused_ers : Register → Meeting → Meeting
cleanup_unused_ers er m =
    if er.source == auto_always
    then record m {
      registers =
          select (λ r. not (r.source == er.source) || member r.pk m.in_use || r.pk == er.pk)
            m.registers;
    }
    else m

abbrev added : Register → Meeting → Meeting
added er m = record m { registers = er ∷ m.registers; next_pk = suc m.next_pk }

abbrev make : Policy → Meeting → Option (List (ℕ × ℕ)) → Outcome (Meeting × Option Register)
make p m none = failed no_voters_named
make p m (some voters) =
    elim (set_voters_from_dict voters (record {
      pk = m.next_pk;
      source = p.name;
      voter_data = [];
      allow_voter_data_write = false;
    })) [
      | err _ ↦ failed register_not_writable
      | ok er ↦ made (cleanup_unused_ers er (added er m), some er)
    ]

abbrev create_if : Option Bool → Policy → Meeting → Outcome (Meeting × Option Register)
create_if none p m = failed no_voters_named
create_if (some false) p m = made (m, latest m)
create_if (some true) p m =
    if compatible p.group_votes_active m.group_votes_active
    then make p m p.get_voters
    else failed group_votes_mismatch

-- `create_er`, in a transaction, so that a failure leaves the meeting alone
unfoldable pub create_er : Bool → Policy → Meeting → Outcome (Meeting × Option Register)
unfolding new_er_needed cleanup_unused_ers
create_er force p m = create_if (if force then some true else new_er_needed p m) p m

abbrev attach : Option Register → Option Register → Option Register
attach none poll_er = poll_er
attach (some er) poll_er = some er

abbrev attached :
    Option Register → Outcome (Meeting × Option Register) → Outcome (Meeting × Option Register)
attached poll_er (made (m, _)) = made (m, attach (latest m) poll_er)
attached poll_er (failed e) = failed e

-- `apply` to a poll with the register `poll_er`: what becomes of the meeting and of that register
unfoldable pub apply : Policy → Option Register → Meeting → Outcome (Meeting × Option Register)
unfolding create_er
apply p poll_er m =
    attached poll_er (if p.creates_before_poll then create_er false p m else made (m, none))

-- `{x: 1 for x in voters}`
abbrev pub one_each : List ℕ → List (ℕ × ℕ)
one_each [] = []
one_each (u ∷ us) = (u, 1) ∷ one_each us

-- `get_voters` of `AutoBeforePoll` and of `ManualTrigger`, and of `AutoAlways`, from the potential
-- voters and, where that component is enabled, the active users
unfoldable pub active_voters : List ℕ → Option (List ℕ) → List (ℕ × ℕ)
active_voters potential none = one_each potential
active_voters potential (some active) = one_each (select (λ u. member u potential) active)

-- `Manual.get_voters`
unfoldable pub manual_voters : List ℕ → List (ℕ × ℕ) → List (ℕ × ℕ)
manual_voters [] weights = []
manual_voters (u ∷ us) weights =
    let rest = manual_voters us weights in
    elim (get u weights) [ none ↦ rest | some w ↦ (u, w) ∷ rest ]
