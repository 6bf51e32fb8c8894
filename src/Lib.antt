-- ===== src/Lib.antt =====
-- Ki Clash, the clients of a turn-based duel: two fighters charge ki, block, attack and teleport, and
-- the first to win enough rounds wins. The server decides; the clients in web/ and mobile/ keep
-- a session, send the player's choices, and show what the server answers. This library models the
-- TypeScript code that decides what a client does.
--
-- The parts, and where each is modelled:
--   web/src/lib/api.ts            Api.antt: the types in Api/Types, localStorage and the effects in
--                                 Api/Storage, apiFetch, createGuestSession and ensureAuth in
--                                 Api/Client, the endpoints in Api/Calls
--   web/src/lib/analytics.ts      Analytics.antt: trackEvent and trackDailyReturn
--   web/src/app/api/analytics/events/route.ts
--                                 Analytics/Route.antt: the route that takes the reports
--   web/src/lib/characters.ts     Characters.antt: the roster and the choice of an opponent
--   web/src/hooks/useGame.ts      Game.antt: the match against the computer; Game/Calls runs its
--                                 handlers against Api/Calls
--   web/src/app/play/page.tsx     Game/Page: the screens and timers around that hook; Game/Screen: the
--                                 effect on the phase, with the sounds and effects that it starts
--   web/src/components/GameBoard.tsx, ActionCard.tsx and Countdown.tsx
--                                 Board.antt and Board/Countdown.antt: the choice of an action, and its
--                                 time limit
--   web/src/components/TurnReveal.tsx
--                                 Reveal.antt: the stages of a turn's reveal, with the page's shake and renders
--   web/src/components/finale/MatchFinale.tsx
--                                 Finale.antt: the stages of the end of a match, whose result may change
--   web/src/hooks/useSoundEffects.ts
--                                 Sounds.antt: the mute flag, and which sounds start
--   web/src/hooks/useTutorial.ts  Tutorial.antt: the scripted lesson; Tutorial/Page: what its page
--                                 (web/src/app/tutorial/page.tsx) lets the player click
--   web/src/hooks/useActionAnimation.ts, web/src/lib/actions.ts
--                                 Animation.antt: a fighter's animation and its timers
--   web/src/hooks/useAdTiming.ts  Ads.antt: when an interstitial is shown, with the page's effect
--   web/src/lib/promo-campaigns.ts, web/src/app/go/[slug]/page.tsx
--                                 Promo.antt: the campaigns and the page that opens a campaign's link
--   web/src/hooks/usePvP.ts       Pvp.antt: the data and the sockets; Pvp/Handlers: every handler;
--                                 Pvp/Events: the events in any order; Pvp/Score: the messages in order;
--                                 Pvp/View: what the messages show
--   web/src/components/room/RoomScreen.tsx
--                                 Room.antt: the lobby of a room; Room/Events: its events in any order;
--                                 Room/Exits: its ways out, with the page
--   web/src/app/pvp/page.tsx      Pvp/Page.antt: the page around usePvP and the lobby
--   web/src/app/shop/page.tsx     Shop.antt: the pass for players without ads, and its checkout
--   web/src/app/history/page.tsx, web/src/app/ranked/page.tsx
--                                 Standings.antt: the pages of past matches and of the leaderboard
--   mobile/src/hooks/useGame.ts   Mobile/Game.antt: the match against the computer on mobile
--   mobile/src/lib/api.ts         Mobile/Api.antt: the session and the requests; Mobile/Api/Calls
--   mobile/src/components/RoomLobby.tsx
--                                 Mobile/Room.antt: the lobby of a room on mobile; Mobile/Room/Agreement
--                                 compares it with the web's
--   web/src/components/arena/pixi/particles.ts
--                                 Particles.antt: the emitter that recycles its particles
--   web/src/components/arena/pixi/effects.ts, PixiBattleArena.tsx
--                                 Effects.antt: the effects on the ticker of an arena
--   web/src/components/arena/pixi/PixiFxOverlay.tsx
--                                 Overlay.antt: the overlay of effects, with its queue
--   web/src/components/arena/FighterSprite.tsx and KiAuraArena.tsx, web/src/lib/assets.ts
--                                 Sprite.antt: the image of a fighter, and its pose
--   mobile/app/pvp.tsx            Mobile/Page.antt: the screen around usePvP and the lobby on mobile;
--                                 Mobile/Page/Agreement compares it with the web's page
--   mobile/src/lib/analytics.ts   Mobile/Analytics.antt: the reports of the app
--   mobile/src/hooks/useSoundEffects.ts
--                                 Mobile/Sounds.antt: the bytes of a sound file and the mix of two sounds
--   mobile/src/hooks/usePvP.ts    Mobile/Pvp.antt and Mobile/Pvp/Handlers; Mobile/Pvp/Agreement compares
--                                 it with the web hook
--
-- How they interact: the hooks call the API client, which reads and writes the session's keys in
-- localStorage and sends requests; the hooks report events to the analytics; useGame picks an opponent
-- from the roster. A component's React states and refs are one record, a handler is a function of that
-- record with the name of the source's in antt's spelling (startGame is start_game), and a handler that
-- awaits is cut at its awaits, so that other events can come between.
--
-- Outside the model, as parameters: the server and the network (Network, whose answer may depend on
-- every request sent so far), expo-secure-store (SecureStore, whose laws are IsStore), JSON.parse in
-- the route of the reports, the numbers of the particles and the arena's effects (Floats), base64, the
-- images that are missing, the WebSocket base address, the
-- clock, which does not go back, fresh identifiers, and random numbers.
--
-- Fuel: apiFetchInternal calls itself, directly and through createGuestSession; api_fetch gives it two
-- levels. The call after a 401 allows no retry, and the guest endpoint is never retried, so no call is
-- nested deeper.
--
-- Numbers are whole and have no bound: counts, ranks and ki are far below 2^53. Texts are sequences of
-- characters; toUpperCase is modelled on every character that gives a capital from A to Z, which room
-- codes are made of.
--
-- Not modelled: drawing, layout and motion; what a sound is synthesised of; the patterns of emission of
-- the particles; the screens of the mobile client but that of matches between players; constant tables
-- of texts, colours and files; the deprecated pixel art; and the two servers, which are written in
-- other languages. The mobile hook of the tutorial is the text of the web hook without its comments,
-- and is not modelled a second time.
pub mod Common
pub mod Api
pub mod Analytics
pub mod Characters
pub mod Game
pub mod Tutorial
pub mod Pvp
pub mod Sounds
pub mod Overlay
pub mod Effects
pub mod Sprite
pub mod Finale
pub mod Tests
pub mod Promo
pub mod Ads
pub mod Mobile
pub mod Shop
pub mod Standings
pub mod Animation
pub mod Room
pub mod Board
pub mod Particles
pub mod Reveal
