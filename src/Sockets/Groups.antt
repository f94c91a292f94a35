-- ===== src/Sockets/Groups.antt =====
-- A group of failures closes a raw socket as the failure in it does.
use pyrpckit.Connection.Life.{Connection}
