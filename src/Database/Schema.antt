-- ===== src/Database/Schema.antt =====
-- src/common/database.cpp: the texts of the SQL statements.
use cli_chat.Base.{List, [], ◌∷◌, ◌++◌}
use cli_chat.Text.{Bytes, codes}

abbrev pub users_table : Bytes
users_table =
    codes "\n"
    ++ (codes "        CREATE TABLE IF NOT EXISTS users (\n"
        ++ (codes "            id INTEGER PRIMARY KEY AUTOINCREMENT,\n"
            ++ (codes "            username TEXT UNIQUE NOT NULL,\n"
                ++ (codes "            password_hash TEXT NOT NULL,\n"
                    ++ (codes "            email TEXT,\n"
                        ++ (codes "            created_at TEXT NOT NULL,\n"
                            ++ (codes "            last_login TEXT,\n"
                                ++ (codes "            is_active BOOLEAN DEFAULT 1\n"
                                    ++ (codes "        );\n" ++ (codes "        "))))))))))

abbrev pub messages_table : Bytes
messages_table =
    codes "\n"
    ++ (codes "        CREATE TABLE IF NOT EXISTS messages (\n"
        ++ (codes "            id INTEGER PRIMARY KEY AUTOINCREMENT,\n"
            ++ (codes "            user_id INTEGER NOT NULL,\n"
                ++ (codes "            username TEXT NOT NULL,\n"
                    ++ (codes "            content TEXT NOT NULL,\n"
                        ++ (codes "            recipient TEXT,\n"
                            ++ (codes "            timestamp TEXT NOT NULL,\n"
                                ++ (codes "            is_private BOOLEAN DEFAULT 0,\n"
                                    ++ (codes
                                          "            FOREIGN KEY (user_id) REFERENCES users (id)\n"
                                        ++ (codes "        );\n" ++ (codes "        ")))))))))))

abbrev pub sessions_table : Bytes
sessions_table =
    codes "\n"
    ++ (codes "        CREATE TABLE IF NOT EXISTS sessions (\n"
        ++ (codes "            token TEXT PRIMARY KEY,\n"
            ++ (codes "            user_id INTEGER NOT NULL,\n"
                ++ (codes "            username TEXT NOT NULL,\n"
                    ++ (codes "            created_at TEXT NOT NULL,\n"
                        ++ (codes "            expires_at TEXT NOT NULL,\n"
                            ++ (codes "            is_active BOOLEAN DEFAULT 1,\n"
                                ++ (codes
                                      "            FOREIGN KEY (user_id) REFERENCES users (id)\n"
                                    ++ (codes "        );\n" ++ (codes "        "))))))))))

abbrev pub timestamp_index : Bytes
timestamp_index =
    codes "\n"
    ++ (codes "        CREATE INDEX IF NOT EXISTS idx_messages_timestamp ON messages(timestamp);\n"
        ++ (codes "        "))

abbrev pub user_id_index : Bytes
user_id_index =
    codes "\n"
    ++ (codes "        CREATE INDEX IF NOT EXISTS idx_messages_user_id ON messages(user_id);\n"
        ++ (codes "        "))

abbrev pub expires_at_index : Bytes
expires_at_index =
    codes "\n"
    ++ (codes
          "        CREATE INDEX IF NOT EXISTS idx_sessions_expires_at ON sessions(expires_at);\n"
        ++ (codes "        "))

abbrev pub create_queries : List Bytes
create_queries =
    users_table ∷ messages_table ∷ sessions_table ∷ timestamp_index ∷ user_id_index
    ∷ expires_at_index ∷ []

abbrev pub foreign_keys : Bytes
foreign_keys = codes "PRAGMA foreign_keys = ON;"

abbrev pub insert_user : Bytes
insert_user =
    codes "INSERT INTO users (username, password_hash, email, created_at) VALUES (?, "
    ++ (codes "?, ?, ?);")

abbrev pub select_user_by_username : Bytes
select_user_by_username =
    codes "SELECT id, username, password_hash, email, created_at, last_login, "
    ++ (codes "is_active FROM users WHERE username = ?;")

abbrev pub select_user_by_id : Bytes
select_user_by_id =
    codes "SELECT id, username, password_hash, email, created_at, last_login, "
    ++ (codes "is_active FROM users WHERE id = ?;")

abbrev pub update_login : Bytes
update_login = codes "UPDATE users SET last_login = ? WHERE id = ?;"

abbrev pub insert_message : Bytes
insert_message =
    codes "INSERT INTO messages (user_id, username, content, recipient, timestamp, "
    ++ (codes "is_private) VALUES (?, ?, ?, ?, ?, ?);")

abbrev pub select_messages : Bytes
select_messages =
    codes "SELECT id, user_id, username, content, recipient, timestamp, is_private "
    ++ (codes "FROM messages WHERE is_private = 0 ORDER BY timestamp DESC LIMIT ?;")

abbrev pub insert_session : Bytes
insert_session =
    codes "INSERT INTO sessions (token, user_id, username, created_at, expires_at, "
    ++ (codes "is_active) VALUES (?, ?, ?, ?, ?, ?);")

abbrev pub select_session : Bytes
select_session =
    codes "SELECT token, user_id, username, created_at, expires_at, is_active FROM "
    ++ (codes "sessions WHERE token = ? AND is_active = 1;")

abbrev pub deactivate_session : Bytes
deactivate_session = codes "UPDATE sessions SET is_active = 0 WHERE token = ?;"

abbrev pub count_users : Bytes
count_users = codes "SELECT COUNT(*) FROM users WHERE is_active = 1;"

abbrev pub count_messages : Bytes
count_messages = codes "SELECT COUNT(*) FROM messages;"
