-- ===== src/Asio.antt =====
-- What the program takes from Boost.Asio: addresses and endpoints. An address is a type of the
-- library's, read from text by `make_address` and written by `to_string`.
pub mod Local
use xerock.Base.{ℕ, ◌≡◌, Option, some, Text}

pub record Asio : Type 1 where
  pub Address : Type 0
  pub address_discrete : Discrete Address
  -- make_address(text, ec): `none` is an error code.
  pub make_address : Text → Option Address
  pub to_string : Address → Text
  pub make_address-to_string : (a : Address) → make_address (to_string a) ≡ some a

module _ ⦃N : Asio⦄ where
  open N use {Address}

  -- boost::asio::ip::tcp::endpoint, and the endpoint of a datagram socket.
  pub record Endpoint : Type 0 where
    pub address : Address
    pub port : ℕ
