-- ===== src/Party/Store.antt =====
-- The objects: parties, and what players hold of them.
pub use odirion_mmoserver.Base.{update}
use odirion_mmoserver.Base.{
  ℕ, Bool, true, false, ◌||◌, Option, none, some, List, [], ◌∷◌, ◌==◌, if◌then◌else◌,
}
use odirion_mmoserver.Position.{Position}

pub record Party : Type 0 where
  pub leader : ℕ
  pub member_list : List ℕ
  pub invite_list : List ℕ
  pub ticks_map : List (ℕ × ℕ)
  pub shared_exp_active : Bool
  pub shared_exp_enabled : Bool

-- `party_of` is `Player::party`, `invitations` is `Player::invitePartyList`.
pub record World : Type 0 where
  pub parties : ℕ → Option Party
  pub next_party : ℕ
  pub party_of : ℕ → Option ℕ
  pub invitations : ℕ → List ℕ

-- What the parties ask of the players, the clock and the configuration.
pub record Env : Type 0 where
  pub level : ℕ → ℕ
  pub position : ℕ → Position
  pub not_gain_in_fight : ℕ → Bool
  pub online : ℕ → Bool
  pub in_fight : ℕ → Bool
  pub time : ℕ
  pub pz_locked : ℕ

-- `std::find(…) != end()`, and `erase` of what `std::find` finds.
unfoldable pub contains : ℕ → List ℕ → Bool
contains q [] = false
contains q (x ∷ xs) = x == q || contains q xs

unfoldable pub erase : ℕ → List ℕ → List ℕ
erase q [] = []
erase q (x ∷ xs) = if x == q then xs else x ∷ erase q xs

-- `std::list::remove`.
unfoldable pub remove : ℕ → List ℕ → List ℕ
remove q [] = []
remove q (x ∷ xs) = if x == q then remove q xs else x ∷ remove q xs

unfoldable pub is_empty : List ℕ → Bool
is_empty [] = true
is_empty (x ∷ xs) = false

unfoldable pub points_to : Option ℕ → ℕ → Bool
points_to none p = false
points_to (some q) p = q == p

unfoldable pub store : ℕ → Party → World → World
store p party w = record w { parties = update w.parties p (some party) }
