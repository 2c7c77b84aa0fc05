-- ===== src/Lib.antt =====
-- A verification library for the game server in newsrc/.
--
-- The server's protocols exchange messages with the clients: a message is a buffer with a position
-- and a length (newsrc/networkmessage.h, newsrc/networkmessage.cpp), encrypted in place with XTEA
-- (newsrc/protocol.cpp) and guarded by a checksum (newsrc/tools.cpp). A client that logs in passes
-- the login queue (newsrc/waitlist.cpp) when the server is full. In the game, players stand at
-- positions (newsrc/position.h), form parties (newsrc/party.cpp), trade items, pay with coins and
-- find each other by name (newsrc/wildcardtree.cpp) by the requests that newsrc/game.cpp handles. All
-- this happens in tasks that the dispatcher (newsrc/tasks.cpp) executes one after the other; the
-- scheduler (newsrc/scheduler.cpp) hands it those that are due later.
--
-- Files and code:
--   Base and below    machine words, lists, bytes and bits; no code of the server.
--   Position          newsrc/position.h; getNextPosition and getDirectionTo of newsrc/tools.cpp. An
--                     offset is an integer, a coordinate wraps at its width.
--   Network/Message   NetworkMessage. An operation is a function of the message that returns the
--                     message afterwards; it returns `none` where the code would touch memory outside
--                     the buffer. `canAdd`, `canRead` and the early returns are the code's.
--   Network/Xtea      Protocol::XTEA_encrypt and XTEA_decrypt on the bytes of a buffer. The loops
--                     run as often as their conditions allow: 32 rounds, and one turn for each eight
--                     bytes that are begun.
--   Network/Checksum  adlerChecksum. The fuel of the outer loop is the number of bytes: each turn
--                     takes one at least.
--   Network/Frames    OutputMessage of newsrc/outputmessage.h, Protocol::onSendMessage and onRecvMessage,
--                     Connection::parseHeader and parsePacket of newsrc/connection.cpp: a message with
--                     its headers, and the frame that arrives. The bytes on the wire are a list.
--   WaitList          WaitingList and its helpers. Clock, configuration and the number of players
--                     online are arguments.
--   Party             Party and Player's pointers to parties: Party/Store the objects,
--                     Party/Experience the shared experience, Party/Operations the methods of Party,
--                     Party/Handlers the handlers of Game and what
--                     Player::onRemoveCreature does of parties. A pointer is a number; a party that is
--                     deleted is absent from the store. The answers of the events are arguments.
--   Character         Player::addExperience, removeExperience and getExpForLevel of newsrc/player.cpp
--                     and newsrc/player.h. The fuel of the level loop is one more than the
--                     experience: each turn but the last raises a bound that the experience exceeds.
--   Scheduler         newsrc/scheduler.cpp. The operations of the threads are actions one after the
--                     other; the queue is a list in the order of the cycles.
--   Ban               Ban::acceptConnection of newsrc/ban.cpp. The map from addresses is a function.
--   Skill             Player::addSkillAdvance of newsrc/player.cpp. The table of tries is an argument;
--                     the fuel exceeds the tries, of which each turn but the first takes one at least.
--   Muting            Player::addMessageBuffer and removeMessageBuffer of newsrc/player.cpp.
--   Vitals            Creature::changeHealth and changeMana of newsrc/creature.cpp, Player::changeSoul.
--   Trade             Game::playerRequestTrade, internalStartTrade, playerAcceptTrade, playerCloseTrade and
--                     internalCloseTrade of newsrc/game.cpp. Items and players are numbers; what is
--                     asked of the map and the items, and whether they can be moved, are arguments.
--   Money             Game::removeMoney and addMoney of newsrc/game.cpp, Item::getWorth of
--                     newsrc/item.cpp. The fuel of the search is the number of containers, which are
--                     opened once each.
--   WildcardTree      newsrc/wildcardtree.cpp; Game::addPlayer, removePlayer, getPlayerByName and
--                     getPlayerByNameWildcard of newsrc/game.cpp. What the code does along a pointer
--                     down the tree is put back into the node on the way up.
--   Dispatcher        Dispatcher and Task of newsrc/tasks.cpp and newsrc/tasks.h. The operations of the
--                     threads are actions one after the other, as for the scheduler.
--   PathSearch        Map::getPathMatching, canWalkTo and AStarNodes of newsrc/map.cpp;
--                     Creature::getWalkCache and FrozenPathingConditionCall of newsrc/creature.cpp. A
--                     pointer to a node is its index. The fuel of the main loop is more than its
--                     measure at the start: each turn closes an open node, and a node is opened again
--                     only for less cost. The cost of a node bounds the way back to the start.
--   FileLoader        newsrc/fileloader.cpp, and the streams of newsrc/fileloader.h (FileLoader/Streams). A
--                     pointer into the file is an index; the nodes on the parser's stack hold the
--                     children that are complete. FileLoader/Encoding is the format of the files.
--   SightLine         Map::isSightClear and checkSightLine of newsrc/map.cpp. The fuel is the distance
--                     of the two tiles and of their floors, which each turn makes less. The
--                     distances from the line wrap at 32 bits; SightLine/Products has the lemmas that
--                     they do not where the tiles are less than 2 ^ 13 apart.
--
-- Not modelled: messages to clients and icons, floats (addDouble, the rate of shared experience), the
-- table of items (addItem), RSA, sockets, the database and the scripts, which are libraries or pure
-- input and output.
mod Base
pub mod Position
pub mod Network
pub mod WaitList
pub mod Party
pub mod Character
pub mod Scheduler
pub mod Ban
pub mod Skill
pub mod Muting
pub mod Vitals
pub mod Trade
pub mod Money
pub mod WildcardTree
pub mod Dispatcher
pub mod PathSearch
pub mod FileLoader
pub mod SightLine
