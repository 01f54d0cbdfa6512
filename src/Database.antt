-- ===== src/Database.antt =====
-- pkg/db/db.go: `NewDB`. The packages gorm and mysql are parameters.
use chain_api.Common.{ℕ, String, Bool, true, Result, ok, err, ◌==◌}
use chain_api.Common.Text.{◌+++◌}
use chain_api.Config.Settings.{Config}
use chain_api.Ipfs.Handler.{int_text}

pub record MysqlConfig : Type 0 where
  pub user : String
  pub passwd : String
  pub net : String
  pub addr : String
  pub db_name : String
  pub allow_native_passwords : Bool

pub record Gorm : Type 1 where
  pub Db : Type 0
  pub Error : Type 0
  -- `gorm.Open`, with statements logged at the level info or at the logger's own, and transactions
  -- by default or not
  pub opened : MysqlConfig → Bool → Bool → Result Error Db
  -- `db.DB()`
  pub sql_db : Db → Result Error (Unit {0})

-- The limits of the pool of connections; the time is in seconds.
pub record Pool : Type 0 where
  pub max_idle_conns : ℕ
  pub max_open_conns : ℕ
  pub conn_max_lifetime : ℕ

unfoldable pub mysql_config : {C : Type 0} → Config C → MysqlConfig
mysql_config cfg = record {
  user = cfg.mysql.user;
  passwd = cfg.mysql.password;
  net = "tcp";
  addr = cfg.mysql.host +++ ":" +++ int_text cfg.mysql.port;
  db_name = cfg.mysql.database;
  allow_native_passwords = true;
}

abbrev pub pool : Pool
pool = record { max_idle_conns = 10; max_open_conns = 100; conn_max_lifetime = 3600 }

module _ (G : Gorm) where
  abbrev pooled : G.Db → Result G.Error (Unit {0}) → Result G.Error (G.Db × Pool)
  pooled db (err e) = err e
  pooled db (ok u) = ok (db, pool)

  unfoldable pub new_db : {C : Type 0} → Config C → Result G.Error (G.Db × Pool)
  unfolding mysql_config
  new_db cfg = elim (G.opened (mysql_config cfg) (cfg.log.level == "debug") true) [
    | err e ↦ err e
    | ok db ↦ pooled db (G.sql_db db)
  ]
